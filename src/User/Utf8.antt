-- ===== src/User/Utf8.antt =====
-- UTF-8 text (user/lib/utf8.c) and terminal sequences (user/lib/term.c). A text is the list of its
-- bytes, and a read past it gives the NUL behind it.
use base_exp.Base.{
  ℕ, zero, suc, ◌+◌, ◌-◌, ◌*◌, ◌/◌, ◌%◌, Bool, not, ◌&&◌, ◌||◌, ◌==◌, leb, ltb, if◌then◌else◌, List,
  [], ◌∷◌, ◌++◌, get_or,
}

abbrev pub utf8_cont : ℕ → Bool
utf8_cont c = c / 64 == 2

abbrev pub utf8_input_len : ℕ → ℕ
utf8_input_len u =
    if ltb u 0x80
    then 1
    else if u / 32 == 6
    then 2
    else if u / 16 == 14
    then 3
    else if u / 8 == 30
    then 4
    else 1

-- `while (pos < len && utf8_cont(buf[pos])) pos++;` with at most `n` rounds.
unfoldable pub skip_cont : (n : ℕ) → List ℕ → (pos : ℕ) → ℕ
skip_cont zero buf pos = pos
skip_cont (suc n) buf pos =
    let rest = skip_cont n buf (pos + 1) in if utf8_cont (get_or buf pos 0) then rest else pos

unfoldable pub utf8_next : List ℕ → (pos len : ℕ) → ℕ
unfolding skip_cont
utf8_next buf pos len = if leb len pos then len else skip_cont (len - (pos + 1)) buf (pos + 1)

-- `while (pos > 0 && utf8_cont(buf[pos])) pos--;`.
unfoldable pub back_cont : List ℕ → (pos : ℕ) → ℕ
back_cont buf zero = zero
back_cont buf (suc pos) =
    let rest = back_cont buf pos in if utf8_cont (get_or buf (suc pos) 0) then rest else suc pos

unfoldable pub utf8_prev : List ℕ → (pos : ℕ) → ℕ
unfolding back_cont
utf8_prev buf zero = zero
utf8_prev buf (suc pos) = back_cont buf pos

-- The loop over the `n` bytes after the first.
unfoldable pub decode_rest : (n : ℕ) → List ℕ → (c0 pos r : ℕ) → ℕ
decode_rest zero buf c0 pos r = r
decode_rest (suc n) buf c0 pos r =
    let rest = decode_rest n buf c0 (pos + 1) (r * 64 + get_or buf pos 0 % 64) in
    if not (utf8_cont (get_or buf pos 0)) then c0 else rest

unfoldable pub decode : List ℕ → (pos end : ℕ) → ℕ
unfolding decode_rest
decode buf pos end =
    let c0 = get_or buf pos 0 in
    let len = end - pos in
    if len == 2
    then decode_rest 1 buf c0 (pos + 1) (c0 % 32)
    else if len == 3
    then decode_rest 2 buf c0 (pos + 1) (c0 % 16)
    else if len == 4
    then decode_rest 3 buf c0 (pos + 1) (c0 % 8)
    else c0

abbrev rune_in : (low high r : ℕ) → Bool
rune_in low high r = leb low r && leb r high

abbrev pub utf8_rune_width : ℕ → ℕ
utf8_rune_width r =
    if ltb r 0x20
    then 0
    else if ltb r 0x80
    then 1
    else if rune_in 0x1100 0x115F r
        || rune_in 0x2329 0x232A r
        || rune_in 0x2E80 0xA4CF r
        || rune_in 0xAC00 0xD7A3 r
        || rune_in 0xF900 0xFAFF r
        || rune_in 0xFE10 0xFE19 r
        || rune_in 0xFE30 0xFE6F r
        || rune_in 0xFF00 0xFF60 r
        || rune_in 0xFFE0 0xFFE6 r
        || rune_in 0x20000 0x3FFFD r
    then 2
    else 1

-- The loop of `utf8_text_width`, with at most `n` rounds.
unfoldable pub width_loop : (n : ℕ) → List ℕ → (start end : ℕ) → ℕ
width_loop zero buf start end = 0
width_loop (suc n) buf start end =
    let next = utf8_next buf start end in
    let rest = width_loop n buf next end in
    if ltb start end then utf8_rune_width (decode buf start next) + rest else 0

-- Each round goes on by a byte at least.
unfoldable pub utf8_text_width : List ℕ → (start end : ℕ) → ℕ
unfolding width_loop
utf8_text_width buf start end = width_loop (end - start) buf start end

-- The digits of a number below ten to the `n`, the last one first.
unfoldable pub low_digits : (n : ℕ) → ℕ → List ℕ
low_digits zero value = []
low_digits (suc n) value =
    let rest = low_digits n (value / 10) in if value == 0 then [] else (b'0' + value % 10) ∷ rest

unfoldable pub backwards : List ℕ → List ℕ
backwards [] = []
backwards (c ∷ cs) = backwards cs ++ (c ∷ [])

-- An `int` has at most ten digits.
unfoldable pub term_append_uint : ℕ → List ℕ
unfolding low_digits backwards
term_append_uint value = if value == 0 then b'0' ∷ [] else backwards (low_digits 12 value)

unfoldable pub term_move_cursor : (dir width : ℕ) → List ℕ
unfolding term_append_uint
term_move_cursor dir width =
    if width == 0 then [] else 27 ∷ b'[' ∷ term_append_uint width ++ (dir ∷ [])

abbrev pub term_clear_eol : List ℕ
term_clear_eol = 27 ∷ b'[' ∷ b'K' ∷ []
