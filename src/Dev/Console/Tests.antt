-- ===== src/Dev/Console/Tests.antt =====
-- The console on concrete inputs.
use base_exp.Base.{ℕ, ◌≡◌, refl, false, Option, none, some, List, [], ◌∷◌, arith}
use base_exp.Dev.Console.{
  Cons, set_char, consoleintr, erase_char, utf8_char_len, char_len_from, utf8_decode, decode_from,
  utf8_display_width, put_backspaces,
}
use base_exp.Dev.Console.Editing.{IsRing, IsEdited}
use base_exp.Dev.Console.Typing.{consoleintr-IsEdited, consoleintr-backspace}

-- Behind a line of two bytes, the three bytes of the rune U+4E2D are being edited.
abbrev wide : Cons
wide = record {
  buf = set_char (set_char (set_char (λ _. 97) 2 228) 3 184) 4 173;
  r = 0;
  w = 2;
  e = 5;
  raw = false;
  out = [];
}

wide-IsRing : IsRing wide
wide-IsRing = record {
  read = omega arith;
  edit = omega arith;
  room = omega arith;
  small = omega arith;
}

-- `Backspace` takes the rune back, and two columns of the screen.
end_of : Option Cons → ℕ × List ℕ
end_of none = (0, [])
end_of (some c) = (c.e, c.out)

backspace_wide : end_of (consoleintr 1 8 wide) ≡ (2, 8 ∷ 32 ∷ 8 ∷ 8 ∷ 32 ∷ 8 ∷ [])
unfolding end_of consoleintr erase_char utf8_char_len char_len_from utf8_decode decode_from
    utf8_display_width put_backspaces
backspace_wide = refl

consoleintr-IsEdited_example : (t : Cons) × (consoleintr 4 21 wide ≡ some t) × IsEdited wide t
consoleintr-IsEdited_example =
    consoleintr-IsEdited 4 21 wide wide-IsRing (omega arith) (omega arith)

consoleintr-backspace_example :
    (t : Cons) × (u : Cons) × (consoleintr 5 98 wide ≡ some t)
    × (t.buf 5 ≡ 98)
    × (t.e ≡ 6)
    × (consoleintr 5 8 t ≡ some u)
    × (u.e ≡ 5)
    × (u.w ≡ 2)
    × IsEdited t u
consoleintr-backspace_example =
    consoleintr-backspace 98 5 wide wide-IsRing (omega arith) refl (omega arith) refl refl
      (omega arith) (omega arith)
