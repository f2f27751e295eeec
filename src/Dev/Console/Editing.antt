-- ===== src/Dev/Console/Editing.antt =====
-- The input ring of kernel/dev/console.c: `consoleintr` keeps its indices in order, ends, and
-- overwrites nothing that is still to be read.
use base_exp.Base.{
  ℕ, zero, suc, ◌+◌, ◌-◌, ◌%◌, ◌^◌, ◌<◌, ◌≤◌, ◌≡◌, refl, sym, ◌∙◌, ap, false, not, ◌&&◌, ◌==◌, ltb,
  leb, Bool-cases, inl, inr, some, List, arith,
}
use mathlib.Core.Path.{subst}
use base_exp.Dev.Console.{
  Cons, input_buf_size, char_len_from, utf8_char_len, put_char, put_backspaces, utf8_decode,
  utf8_display_width, erase_char, kill_line, sub_uint,
}

-- Read, write and edit index in order, at most the size of the ring apart, before they wrap around.
pub record IsRing (c : Cons) : Type 0 where
  pub read : c.r ≤ c.w
  pub edit : c.w ≤ c.e
  pub room : c.e ≤ c.r + input_buf_size
  pub small : c.e < 2 ^ 32

char_len_from_bounds :
    (c : Cons) (idx n : ℕ)
    → c.w ≤ idx
    → (n ≤ char_len_from c idx n) × (char_len_from c idx n + c.w ≤ n + idx)
unfolding char_len_from
char_len_from_bounds c zero n h = (omega arith, omega arith)
char_len_from_bounds c (suc idx) n h = elim (Bool-cases (ltb c.w (suc idx))) [
  | inl lt ↦
      let (low, high) = char_len_from_bounds c idx (n + 1) (ground arith) in
      (ground arith, ground arith)
  | inr ge ↦ (ground arith, ground arith)
]

utf8_char_len_bounds :
    (c : Cons) → c.w < c.e → (0 < utf8_char_len c c.e) × (utf8_char_len c c.e + c.w ≤ c.e)
unfolding utf8_char_len
utf8_char_len_bounds c h =
    let (low, high) = char_len_from_bounds c (c.e - 1) 1 (omega arith) in
    let z : leb c.e c.w ≡ false = ground arith in rw z (omega arith, omega arith)

pub put_backspaces_lem :
    (width : ℕ) (c : Cons) → (o : List ℕ) × (put_backspaces width c ≡ record c { out = o })
unfolding put_backspaces
put_backspaces_lem zero c = (c.out, refl)
put_backspaces_lem (suc width) c =
    put_backspaces_lem width (put_char 8 (put_char 32 (put_char 8 c)))

-- `erase_char` steps back over at least one byte, and not over the write index.
pub record IsErased (c t : Cons) : Type 0 where
  pub len : ℕ
  pub out : List ℕ
  pub some_byte : 0 < len
  pub within : len + c.w ≤ c.e
  pub eq : t ≡ record c { e = c.e - len; out = out }

pub erase_char-IsErased : (c : Cons) → IsRing c → c.w < c.e → IsErased c (erase_char c)
unfolding erase_char
erase_char-IsErased c ring h =
    let (low, high) = utf8_char_len_bounds c h in
    let n = utf8_char_len c c.e in
    let small = ring.small in
    let wrap : sub_uint c.e n ≡ c.e - n = ground arith in
    let (o, e) =
      put_backspaces_lem (utf8_display_width (utf8_decode c c.e n))
        (record c { e = sub_uint c.e n }) in
    record {
      len = n;
      out = o;
      some_byte = low;
      within = high;
      eq = e ∙ ap (λ z. record c { e = z; out = o }) wrap;
    }

-- After an edit: the ring is in order, no byte was read, no line taken back, and the bytes that are
-- still there are the same.
pub record IsEdited (c t : Cons) : Type 0 where
  pub ring : IsRing t
  pub unread : t.r ≡ c.r
  pub lines : c.w ≤ t.w
  pub kept :
      (j : ℕ)
      → c.r ≤ j
      → j < c.e
      → j < t.e
      → t.buf (j % input_buf_size) ≡ c.buf (j % input_buf_size)

pub same-IsEdited : (c : Cons) → IsRing c → IsEdited c c
same-IsEdited c ring = record {
  ring = ring;
  unread = refl;
  lines = omega arith;
  kept = λ j low high h. refl;
}

shorter-IsEdited :
    (c : Cons) (e : ℕ) (out : List ℕ)
    → IsRing c
    → c.w ≤ e
    → e ≤ c.e
    → IsEdited c (record c { e = e; out = out })
shorter-IsEdited c e out ring low high = record {
  ring = record {
    read = ring.read;
    edit = low;
    room = omega (arith, ring.room);
    small = omega (arith, ring.small);
  };
  unread = refl;
  lines = omega arith;
  kept = λ j l h g. refl;
}

pub IsErased-IsEdited : (c t : Cons) → IsRing c → IsErased c t → IsEdited c t
IsErased-IsEdited c t ring erased = subst (IsEdited c) (sym erased.eq) (
    shorter-IsEdited c (c.e - erased.len) erased.out ring (omega (arith, erased.within))
      (omega arith))

IsEdited-trans : (c s t : Cons) → IsEdited c s → s.e ≤ c.e → IsEdited s t → t.e ≤ s.e → IsEdited c t
IsEdited-trans c s t a le b le' = record {
  ring = b.ring;
  unread = b.unread ∙ a.unread;
  lines = omega (arith, a.lines, b.lines);
  kept = λ j low high h.
      b.kept j (omega (arith, a.unread)) (omega arith) h ∙ a.kept j low high (omega arith);
}

-- Kill line stops at the write index or behind a newline.
abbrev pub IsLineStart : Cons → Type 0
IsLineStart t = (not (t.e == t.w) && not (t.buf (sub_uint t.e 1 % input_buf_size) == 10)) ≡ false

pub kill_line-IsEdited :
    (fuel : ℕ) (c : Cons)
    → IsRing c
    → c.e < c.w + fuel
    → (t : Cons) × (kill_line fuel c ≡ some t)
      × IsEdited c t
      × IsLineStart t
      × (t.e ≤ c.e)
      × (t.w ≡ c.w)
unfolding kill_line
kill_line-IsEdited zero c ring enough = absurd (omega (arith, ring.edit))
kill_line-IsEdited (suc fuel) c ring enough =
    elim (Bool-cases (not (c.e == c.w) && not (c.buf (sub_uint c.e 1 % input_buf_size) == 10))) [
      | inr stop ↦ (c, rw stop refl, same-IsEdited c ring, stop, omega arith, refl)
      | inl more ↦
          let edit = ring.edit in
          let left : c.w < c.e = ground arith in
          let erased = erase_char-IsErased c ring left in
          let s = erase_char c in
          let once = IsErased-IsEdited c s ring erased in
          let we : s.w ≡ c.w = ap (λ (z : Cons). z.w) erased.eq in
          let ee : s.e ≡ c.e - erased.len = ap (λ (z : Cons). z.e) erased.eq in
          let (t, ran, edited, at_start, le, same) =
            kill_line-IsEdited fuel s once.ring
              (omega (arith, we, ee, erased.some_byte, erased.within)) in
          (
            t,
            rw more ran,
            IsEdited-trans c s t once (omega (arith, ee)) edited le,
            at_start,
            omega (arith, ee, le),
            same ∙ we,
          )
    ]
