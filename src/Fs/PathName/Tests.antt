-- ===== src/Fs/PathName/Tests.antt =====
-- Path names on concrete inputs.
use base_exp.Base.{◌≡◌, refl, some, none, [], ◌∷◌}
use base_exp.Fs.PathName.{skipelem, cut, skip_slashes, elem_of, after_elem}

-- The path "///a//bb".
skipelem-two_names :
    skipelem (b'/' ∷ b'/' ∷ b'/' ∷ b'a' ∷ b'/' ∷ b'/' ∷ b'b' ∷ b'b' ∷ [])
    ≡ some (b'a' ∷ [], b'b' ∷ b'b' ∷ [])
unfolding skipelem cut skip_slashes elem_of after_elem
skipelem-two_names = refl

skipelem-slashes : skipelem (b'/' ∷ b'/' ∷ []) ≡ none
unfolding skipelem cut skip_slashes
skipelem-slashes = refl
