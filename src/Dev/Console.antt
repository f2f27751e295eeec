-- ===== src/Dev/Console.antt =====
-- The console's line editing (kernel/dev/console.c): the input ring and `consoleintr`. `cons.lock`
-- covers the handler, so it is one step. `out` is what `consputc` has sent to the UART, the last
-- byte first; `wakeup(&cons.r)` and `procdump` change nothing of this state.
pub mod Editing
pub mod Typing
mod Tests
use base_exp.Base.{
  ℕ, zero, suc, ◌+◌, ◌-◌, ◌*◌, ◌%◌, ◌^◌, bit_and, bit_or, Bool, true, false, not, ◌&&◌, ◌||◌, ◌==◌,
  ltb, leb, if◌then◌else◌, Option, none, some, List, [], ◌∷◌, arith,
}

abbrev pub input_buf_size : ℕ
input_buf_size = 128

-- `uint` arithmetic.
abbrev pub add_uint : ℕ → ℕ → ℕ
add_uint a b = (a + b) % 2 ^ 32

abbrev pub sub_uint : ℕ → ℕ → ℕ
sub_uint a b = (a + 2 ^ 32 - b) % 2 ^ 32

pub record Cons : Type 0 where
  pub buf : ℕ → ℕ
  pub r : ℕ
  pub w : ℕ
  pub e : ℕ
  pub raw : Bool
  pub out : List ℕ

abbrev pub is_cont : ℕ → Bool
is_cont c = bit_and c 192 == 128

-- The loop of `utf8_char_len` from `idx` on, with `n` bytes so far.
unfoldable pub char_len_from : Cons → (idx n : ℕ) → ℕ
char_len_from c zero n = n
char_len_from c (suc idx) n =
    let rest = char_len_from c idx (n + 1) in
    if ltb c.w (suc idx) && is_cont (c.buf (suc idx % input_buf_size)) then rest else n

unfoldable pub utf8_char_len : Cons → ℕ → ℕ
unfolding char_len_from
utf8_char_len c end = if leb end c.w then 0 else char_len_from c (end - 1) 1

-- `consputc`, also of BACKSPACE.
abbrev pub put_char : ℕ → Cons → Cons
put_char ch c = record c { out = ch ∷ c.out }

unfoldable pub put_backspaces : ℕ → Cons → Cons
put_backspaces zero c = c
put_backspaces (suc width) c = put_backspaces width (put_char 8 (put_char 32 (put_char 8 c)))

-- The loop of `utf8_decode` over the bytes `i` to `len`; `none` where it returns `c0`.
unfoldable pub decode_from : Cons → (end len i rounds r : ℕ) → Option ℕ
decode_from c end len i zero r = some r
decode_from c end len i (suc rounds) r =
    let ch = c.buf (add_uint (sub_uint end len) i % input_buf_size) in
    let rest = decode_from c end len (i + 1) rounds (bit_or (r * 64 % 2 ^ 32) (bit_and ch 63)) in
    if is_cont ch then rest else none

unfoldable pub utf8_decode : Cons → (end len : ℕ) → ℕ
unfolding decode_from
utf8_decode c end len =
    let c0 = c.buf (sub_uint end len % input_buf_size) in
    let bits : ℕ → ℕ = λ mask.
      elim (decode_from c end len 1 (len - 1) (bit_and c0 mask)) as (λ _. ℕ) [
        | none ↦ c0
        | some rune ↦ rune
      ] in
    if len == 1
    then c0
    else if len == 2
    then bits 31
    else if len == 3
    then bits 15
    else if len == 4
    then bits 7
    else c0

abbrev pub between : ℕ → ℕ → ℕ → Bool
between low high rune = leb low rune && leb rune high

unfoldable pub utf8_display_width : ℕ → ℕ
utf8_display_width rune =
    if ltb rune 128
    then 1
    else if between 4352 4447 rune
        || between 9001 9002 rune
        || between 11904 42191 rune
        || between 44032 55203 rune
        || between 63744 64255 rune
        || between 65040 65049 rune
        || between 65072 65135 rune
        || between 65280 65376 rune
        || between 65504 65510 rune
        || between 131072 262141 rune
    then 2
    else 1

-- Erase the last character of the line, on the screen too.
unfoldable pub erase_char : Cons → Cons
unfolding utf8_char_len utf8_decode utf8_display_width put_backspaces
erase_char c =
    let len = utf8_char_len c c.e in
    put_backspaces (utf8_display_width (utf8_decode c c.e len)) (record c { e = sub_uint c.e len })

-- Kill line; `none` if the fuel does not suffice.
unfoldable pub kill_line : ℕ → Cons → Option Cons
kill_line zero c = none
kill_line (suc fuel) c =
    let rest = kill_line fuel (erase_char c) in
    if not (c.e == c.w) && not (c.buf (sub_uint c.e 1 % input_buf_size) == 10) then rest else some c

abbrev pub set_char : (ℕ → ℕ) → ℕ → ℕ → ℕ → ℕ
set_char buf i ch j = if j == i then ch else buf j

-- `cons.buf[cons.e++ % INPUT_BUF_SIZE] = c`.
abbrev pub push_char : ℕ → Cons → Cons
push_char ch c = record c {
  buf = set_char c.buf (c.e % input_buf_size) (ch % 256);
  e = add_uint c.e 1;
}

abbrev pub has_room : Cons → Bool
has_room c = ltb (sub_uint c.e c.r) input_buf_size

abbrev pub newline_of : ℕ → ℕ
newline_of ch = if ch == 13 then 10 else ch

-- `cons.w = cons.e`.
abbrev pub commit : Cons → Cons
commit c = record c { w = c.e }

abbrev pub ends_line : ℕ → Cons → Bool
ends_line ch c = ch == 10 || ch == 4 || sub_uint c.e c.r == input_buf_size

abbrev pub type_char : ℕ → Cons → Cons
type_char ch c =
    let typed = push_char ch (put_char ch c) in if ends_line ch typed then commit typed else typed

unfoldable pub consoleintr : (fuel ch : ℕ) → Cons → Option Cons
unfolding erase_char kill_line
consoleintr fuel ch c =
    if ch == 16
    then some c
    else if c.raw
    then some (if not (ch == 0) && has_room c then commit (push_char (newline_of ch) c) else c)
    else if ch == 21
    then kill_line fuel c
    else if ch == 8 || ch == 127
    then some (if not (c.e == c.w) then erase_char c else c)
    else some (if not (ch == 0) && has_room c then type_char (newline_of ch) c else c)

unfoldable pub consolesetraw : ℕ → Cons → Cons
consolesetraw raw c = record c { raw = not (raw == 0) }
