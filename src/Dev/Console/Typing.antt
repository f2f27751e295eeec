-- ===== src/Dev/Console/Typing.antt =====
-- `consoleintr` (kernel/dev/console.c) on any byte, and a byte that is typed and then erased.
use base_exp.Base.{
  ℕ, zero, suc, ◌+◌, ◌-◌, ◌%◌, ◌^◌, ◌<◌, ◌≤◌, ◌≡◌, refl, ◌∙◌, ap, Bool, true, false, not, ◌&&◌,
  ◌||◌, ◌==◌, leb, if◌then◌else◌, Bool-cases, inl, inr, Option, some, List, ◌∷◌, arith,
}
use base_exp.Dev.Console.{
  Cons, input_buf_size, is_cont, char_len_from, utf8_char_len, put_char, utf8_decode,
  utf8_display_width, erase_char, kill_line, set_char, push_char, has_room, newline_of, commit,
  ends_line, type_char, consoleintr, add_uint, sub_uint,
}
use base_exp.Dev.Console.Editing.{
  IsRing, IsEdited, same-IsEdited, erase_char-IsErased, IsErased-IsEdited, kill_line-IsEdited,
  put_backspaces_lem,
}

ring_ne : (j e : ℕ) → j < e → e < j + 128 → (j % 128 == e % 128) ≡ false
ring_ne j e low high = ground arith

module _ {A : Type 0} (x y : A) {b : Bool} where
  if_of_true : b ≡ true → (if b then x else y) ≡ x
  if_of_true h = rw h refl

  if_of_false : b ≡ false → (if b then x else y) ≡ y
  if_of_false h = rw h refl

-- The conditions under which a byte is stored.
module _ (c : Cons) (ring : IsRing c) (fits : c.e + 1 < 2 ^ 32) where
  room_lem : has_room c ≡ true → c.e < c.r + input_buf_size
  room_lem h = let a = ring.read in let b = ring.edit in let d = ring.room in ground arith

  push_char-IsEdited :
      (ch w : ℕ) (out : List ℕ)
      → has_room c ≡ true
      → c.w ≤ w
      → w ≤ c.e + 1
      → IsEdited c (record (push_char ch c) { w = w; out = out })
  push_char-IsEdited ch w out room low high =
      let wrap : add_uint c.e 1 ≡ c.e + 1 = ground arith in
      let below = room_lem room in
      record {
        ring = record {
          read = omega (arith, ring.read);
          edit = omega (arith, wrap);
          room = omega (arith, wrap, below);
          small = omega (arith, wrap);
        };
        unread = refl;
        lines = low;
        kept = λ j l h g. let ne = ring_ne j c.e h (omega arith) in rw ne refl;
      }

  type_char-IsEdited : (ch : ℕ) → has_room c ≡ true → IsEdited c (type_char ch c)
  type_char-IsEdited ch room =
      let wrap : add_uint c.e 1 ≡ c.e + 1 = ground arith in
      elim (Bool-cases (ends_line ch (push_char ch (put_char ch c)))) [
        | inl e ↦ rw e (
            push_char-IsEdited ch (add_uint c.e 1) (ch ∷ c.out) room
              (omega (arith, wrap, ring.edit)) (omega (arith, wrap)))
        | inr ne ↦
            rw ne
              (push_char-IsEdited ch c.w (ch ∷ c.out) room (omega arith) (omega (arith, ring.edit)))
      ]

  raw_char-IsEdited : (ch : ℕ) → has_room c ≡ true → IsEdited c (commit (push_char ch c))
  raw_char-IsEdited ch room =
      let wrap : add_uint c.e 1 ≡ c.e + 1 = ground arith in
      push_char-IsEdited ch (add_uint c.e 1) c.out room (omega (arith, wrap, ring.edit))
        (omega (arith, wrap))

  erased-IsEdited : (c.e == c.w) ≡ false → IsEdited c (erase_char c)
  erased-IsEdited ne =
      let edit = ring.edit in
      IsErased-IsEdited c (erase_char c) ring (erase_char-IsErased c ring (ground arith))

  if-IsEdited : (b : Bool) (t : Cons) → (b ≡ true → IsEdited c t) → IsEdited c (if b then t else c)
  if-IsEdited true t h = h refl
  if-IsEdited false t h = same-IsEdited c ring

  room_of : (b : Bool) → (b && has_room c) ≡ true → has_room c ≡ true
  room_of true h = h
  room_of false h = absurd (cc)

  abbrev Ends : Option Cons → Type 0
  Ends o = (t : Cons) × (o ≡ some t) × IsEdited c t

  negated : (b : Bool) → not b ≡ true → b ≡ false
  negated true h = absurd (cc)
  negated false h = refl

  kill_run :
      (fuel ch : ℕ)
      → (ch == 16) ≡ false
      → c.raw ≡ false
      → (ch == 21) ≡ true
      → consoleintr fuel ch c ≡ kill_line fuel c
  unfolding consoleintr
  kill_run fuel ch e r k = if_of_false _ _ e ∙ if_of_false _ _ r ∙ if_of_true _ _ k

  handled : (fuel ch : ℕ) → c.e < c.w + fuel → Ends (consoleintr fuel ch c)
  unfolding consoleintr
  handled fuel ch enough = elim (Bool-cases (ch == 16)) [
    | inl e ↦ (c, rw e refl, same-IsEdited c ring)
    | inr e ↦ elim (Bool-cases c.raw) [
      | inl r ↦ (
        if not (ch == 0) && has_room c then commit (push_char (newline_of ch) c) else c,
        rw (e, r) refl,
        if-IsEdited _ _ λ h. raw_char-IsEdited (newline_of ch) (room_of _ h),
      )
      | inr r ↦ elim (Bool-cases (ch == 21)) [
        | inl k ↦
            let (t, ran, edited, at_start, le, same) = kill_line-IsEdited fuel c ring enough in
            (t, kill_run fuel ch e r k ∙ ran, edited)
        | inr k ↦ elim (Bool-cases (ch == 8 || ch == 127)) [
          | inl b ↦ (
            if not (c.e == c.w) then erase_char c else c,
            rw (e, r, k, b) refl,
            if-IsEdited _ _ λ h. erased-IsEdited (negated _ h),
          )
          | inr b ↦ (
            if not (ch == 0) && has_room c then type_char (newline_of ch) c else c,
            rw (e, r, k, b) refl,
            if-IsEdited _ _ λ h. type_char-IsEdited (newline_of ch) (room_of _ h),
          )
        ]
      ]
    ]
  ]

-- `consoleintr` of any byte ends, and leaves the ring in order: read, write and edit index stay in
-- this order and at most INPUT_BUF_SIZE apart, the read index stays, no line is taken back, and no
-- byte from the read index on is changed, unless it is erased. The conditions are a ring in order,
-- an edit index that does not wrap around, and fuel for each byte of the line being edited.
pub consoleintr-IsEdited :
    (fuel ch : ℕ) (c : Cons)
    → IsRing c
    → c.e + 1 < 2 ^ 32
    → c.e < c.w + fuel
    → (t : Cons) × (consoleintr fuel ch c ≡ some t) × IsEdited c t
consoleintr-IsEdited fuel ch c ring fits enough = handled c ring fits fuel ch enough

module _ (c : Cons) (ch : ℕ) (ring : IsRing c) (fits : c.e + 1 < 2 ^ 32) where
  -- A byte that ends no line and is not the rest of a UTF-8 character.
  typed : Cons
  typed = push_char ch (put_char ch c)

  char_len_from-single :
      (s : Cons) (idx : ℕ)
      → is_cont (s.buf (idx % input_buf_size)) ≡ false
      → char_len_from s idx 1 ≡ 1
  unfolding char_len_from
  char_len_from-single s zero h = refl
  char_len_from-single s (suc idx) h = ground arith

  typed_len : is_cont (ch % 256) ≡ false → utf8_char_len typed typed.e ≡ 1
  unfolding utf8_char_len typed
  typed_len lone =
      let edit = ring.edit in
      let wrap : add_uint c.e 1 ≡ c.e + 1 = ground arith in
      let back : c.e + 1 - 1 ≡ c.e = omega arith in
      let z : leb (c.e + 1) c.w ≡ false = ground arith in
      let self : set_char c.buf (c.e % input_buf_size) (ch % 256) (c.e % input_buf_size)
          ≡ ch % 256 =
        ground arith in
      rw (wrap, z, back)
        (char_len_from-single
          (record c {
            buf = set_char c.buf (c.e % input_buf_size) (ch % 256);
            e = c.e + 1;
            out = ch ∷ c.out;
          })
          c.e (rw self lone))

  typed_run :
      (fuel : ℕ)
      → c.raw ≡ false
      → 31 < ch
      → (ch == 127) ≡ false
      → c.e + 1 < c.r + input_buf_size
      → consoleintr fuel ch c ≡ some typed
  unfolding consoleintr typed
  typed_run fuel cooked printable visible room =
      let read = ring.read in
      let edit = ring.edit in
      let wrap : add_uint c.e 1 ≡ c.e + 1 = ground arith in
      let vacant : has_room c ≡ true = ground arith in
      let full : (sub_uint (c.e + 1) c.r == input_buf_size) ≡ false = ground arith in
      let p : (ch == 16) ≡ false = ground arith in
      let u : (ch == 21) ≡ false = ground arith in
      let h : (ch == 8) ≡ false = ground arith in
      let m : (ch == 13) ≡ false = ground arith in
      let n : (ch == 10) ≡ false = ground arith in
      let d : (ch == 4) ≡ false = ground arith in
      let z : (ch == 0) ≡ false = ground arith in
      simp (p, cooked, u, h, visible, z, vacant, m, wrap, n, d, full)

  erase_run : (fuel : ℕ) → c.raw ≡ false → consoleintr fuel 8 typed ≡ some (erase_char typed)
  unfolding consoleintr typed
  erase_run fuel cooked =
      let edit = ring.edit in
      let wrap : add_uint c.e 1 ≡ c.e + 1 = ground arith in
      let z : (add_uint c.e 1 == c.w) ≡ false = ground arith in simp (cooked, z)

  erased_edit :
      is_cont (ch % 256) ≡ false → ((erase_char typed).e ≡ c.e) × ((erase_char typed).w ≡ c.w)
  unfolding erase_char
  erased_edit lone =
      let wrap : add_uint c.e 1 ≡ c.e + 1 = ground arith in
      let width = utf8_display_width (utf8_decode typed typed.e (utf8_char_len typed typed.e)) in
      let (o, e) =
        put_backspaces_lem width
          (record typed { e = sub_uint typed.e (utf8_char_len typed typed.e) }) in
      let back : sub_uint (c.e + 1) 1 ≡ c.e = ground arith in
      (
        ap (λ (z : Cons). z.e) e
            ∙ (ap (λ z. sub_uint typed.e z) (typed_len lone) ∙ (unfold typed in rw wrap back)),
        ap (λ (z : Cons). z.w) e ∙ (unfold typed in refl),
      )

-- A visible byte that is not the rest of a UTF-8 character, typed in a line with room, is put behind
-- the line; `Backspace` then takes it back: read, write and edit index are as before, and every byte
-- before them is.
pub consoleintr-backspace :
    (ch fuel : ℕ) (c : Cons)
    → IsRing c
    → c.e + 2 < 2 ^ 32
    → c.raw ≡ false
    → 31 < ch
    → (ch == 127) ≡ false
    → is_cont (ch % 256) ≡ false
    → c.e + 1 < c.r + input_buf_size
    → c.e + 1 < c.w + fuel
    → (t : Cons) × (u : Cons) × (consoleintr fuel ch c ≡ some t)
      × (t.buf (c.e % input_buf_size) ≡ ch % 256)
      × (t.e ≡ c.e + 1)
      × (consoleintr fuel 8 t ≡ some u)
      × (u.e ≡ c.e)
      × (u.w ≡ c.w)
      × IsEdited t u
consoleintr-backspace ch fuel c ring fits cooked printable visible lone room enough =
    let one : c.e + 1 < 2 ^ 32 = omega arith in
    let t = typed c ch ring one in
    let ran = typed_run c ch ring one fuel cooked printable visible room in
    let (e, w) = erased_edit c ch ring one lone in
    let wrap : add_uint c.e 1 ≡ c.e + 1 = ground arith in
    let read = ring.read in
    let edit = ring.edit in
    let vacant : has_room c ≡ true = ground arith in
    let pushed : IsEdited c t =
      unfold typed in
      push_char-IsEdited c ring one ch c.w (ch ∷ c.out) vacant (omega arith) (omega arith) in
    (
      t,
      erase_char t,
      ran,
      unfold typed in ground arith,
      unfold typed in wrap,
      erase_run c ch ring one fuel cooked,
      e,
      w,
      erased-IsEdited t pushed.ring (unfold typed in omega (arith, wrap))
          (unfold typed in ground arith),
    )
