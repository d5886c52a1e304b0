-- ===== src/Rasvn/Conn/Stream.antt =====
-- The reader over the bytes that are to come, whichever reads they come in.
use svn.Base.{
  ℕ, zero, suc, ◌+◌, ◌≡◌, refl, sym, ap, ◌∙◌, subst, arith, List, [], ◌∷◌, ◌++◌, Bytes, drop,
  get_elem?, Bool, true, false, if◌then◌else◌, none, some, ok, ◌⊎◌, inl, inr,
}
use svn.Rasvn.Conn.Read.{
  Arrival, bytes, failure, Reader, Read, ◌>>=◌, after_step, return, loop, after_round,
}
use svn.Rasvn.Conn.Io.{receive, fill, peek_at, peek_body, peek_byte, advance, consume_byte}
use svn.Rasvn.Conn.Progress.{IsRound, loop_unroll}
use svn.Rasvn.Conn.Rounds.{peek_body-IsRound}

-- The bytes that come before the stream ends or fails.
abbrev pub coming : List Arrival → Bytes
coming [] = []
coming (bytes [] ∷ rest) = []
coming (bytes (b ∷ bs) ∷ rest) = (b ∷ bs) ++ coming rest
coming (failure e ∷ rest) = []

abbrev pub upcoming : Reader → Bytes
upcoming r = drop r.pos r.buf ++ coming r.input

-- In every reader with the bytes `bs` to come, `m` returns `a` and leaves `bs'` to come.
pub data Gets {ℓ} {A : Type ℓ} (m : Read A) (bs : Bytes) (a : A) (bs' : Bytes) : Type ℓ where
  gets :
      ((r : Reader) → upcoming r ≡ bs → (r' : Reader) × (m r ≡ (r', ok a)) × (upcoming r' ≡ bs'))
      → Gets m bs a bs'

module _ {ℓ} {A : Type ℓ} where
  pub run_Gets :
      {m : Read A} {bs : Bytes} {a : A} {bs' : Bytes}
      → Gets m bs a bs'
      → (r : Reader) → upcoming r ≡ bs
      → (r' : Reader) × (m r ≡ (r', ok a)) × (upcoming r' ≡ bs')
  run_Gets (gets f) = f

  pub return-Gets : (a : A) (bs : Bytes) → Gets (return a) bs a bs
  return-Gets a bs = gets (λ r e. (r, refl, e))

  pub if_true-Gets :
      {b : Bool} {m : Read A} (n : Read A) {bs : Bytes} {a : A} {bs' : Bytes}
      → b ≡ true
      → Gets m bs a bs'
      → Gets (if b then m else n) bs a bs'
  if_true-Gets {m = m} n {bs = bs} {a = a} {bs' = bs'} e h =
      subst (λ b. Gets (if b then m else n) bs a bs') (sym e) h

  pub if_false-Gets :
      {b : Bool} (m : Read A) {n : Read A} {bs : Bytes} {a : A} {bs' : Bytes}
      → b ≡ false
      → Gets n bs a bs'
      → Gets (if b then m else n) bs a bs'
  if_false-Gets m {n = n} {bs = bs} {a = a} {bs' = bs'} e h =
      subst (λ b. Gets (if b then m else n) bs a bs') (sym e) h

pub bind-Gets {ℓ κ} :
    {A : Type ℓ} {B : Type κ} {m : Read A} (f : A → Read B) {bs bs' bs'' : Bytes} {a : A} {b : B}
    → Gets m bs a bs'
    → Gets (f a) bs' b bs''
    → Gets (m >>= f) bs b bs''
bind-Gets {m = m} f (gets p) (gets q) = gets (λ r e.
    let (r', run, e') = p r e in
    let (r'', run', e'') = q r' e' in (r'', ap (λ s. after_step s f) run ∙ run', e''))

module _ {ℓ κ} {S : Type ℓ} {A : Type κ} (body : S → Read (S ⊎ A))
    (round : (s : S) → IsRound (body s)) where
  pub more-Gets :
      {s s' : S} {a : A} {bs bs' bs'' : Bytes}
      → Gets (body s) bs (inl s') bs'
      → Gets (loop body s') bs' a bs''
      → Gets (loop body s) bs a bs''
  more-Gets {s = s} (gets p) (gets q) = gets (λ r e.
      let (r', run, e') = p r e in
      let (r'', run', e'') = q r' e' in
      (r'', loop_unroll body round s r ∙ ap (after_round (loop body)) run ∙ run', e''))

  pub done-Gets :
      {s : S} {a : A} {bs bs' : Bytes} → Gets (body s) bs (inr a) bs' → Gets (loop body s) bs a bs'
  done-Gets {s = s} (gets p) = gets (λ r e.
      let (r', run, e') = p r e in
      (r', loop_unroll body round s r ∙ ap (after_round (loop body)) run, e'))

-- A buffer that has a byte at the position.
abbrev pub IsReady : Reader → ℕ → Bytes → Type 0
IsReady r b bs = (ys : Bytes) × (drop r.pos r.buf ≡ b ∷ ys) × (ys ++ coming r.input ≡ bs)

uncons : (b c : ℕ) (xs ys : Bytes) → b ∷ xs ≡ c ∷ ys → (b ≡ c) × (xs ≡ ys)
uncons b c xs ys e = (cc e, cc e)

elem_drop : (xs : Bytes) (i b : ℕ) (ys : Bytes) → drop i xs ≡ b ∷ ys → get_elem? xs i ≡ some b
elem_drop [] zero b ys e = cc e
elem_drop [] (suc i) b ys e = cc e
elem_drop (x ∷ xs) zero b ys e = cc e
elem_drop (x ∷ xs) (suc i) b ys e = elem_drop xs i b ys e

elem_none : (xs : Bytes) (i : ℕ) → drop i xs ≡ [] → get_elem? xs i ≡ none
elem_none [] i e = refl
elem_none (x ∷ xs) zero e = cc e
elem_none (x ∷ xs) (suc i) e = elem_none xs i e

drop_next : (xs : Bytes) (i b : ℕ) (ys : Bytes) → drop i xs ≡ b ∷ ys → drop (i + 1) xs ≡ ys
drop_next [] zero b ys e = cc e
drop_next [] (suc i) b ys e = cc e
drop_next (x ∷ xs) zero b ys e = cc e
drop_next (x ∷ xs) (suc i) b ys e =
    let next : suc i + 1 ≡ suc (i + 1) = omega arith in rw next (drop_next xs i b ys e)

receive-IsReady :
    (arrivals : List Arrival) (r : Reader) (b : ℕ) (bs : Bytes)
    → r.buf ≡ []
    → r.pos ≡ 0
    → coming arrivals ≡ b ∷ bs
    → (r' : Reader) × (receive arrivals r ≡ (r', ok tt)) × IsReady r' b bs
unfolding receive
receive-IsReady [] r b bs e p h = absurd (cc h)
receive-IsReady (bytes [] ∷ rest) r b bs e p h = absurd (cc h)
receive-IsReady (failure x ∷ rest) r b bs e p h = absurd (cc h)
receive-IsReady (bytes (c ∷ cs) ∷ rest) r b bs e p h =
    let (same, more) = uncons c b (cs ++ coming rest) bs h in
    (
      record r { buf = r.buf ++ (c ∷ cs); input = rest },
      refl,
      (
        cs,
        subst (λ n. drop n (r.buf ++ (c ∷ cs)) ≡ b ∷ cs) (sym p)
            (ap (λ (t : Bytes). t ++ (c ∷ cs)) e ∙ ap (λ n. n ∷ cs) same),
        more,
      ),
    )

pub fill-IsReady :
    (r : Reader) (b : ℕ) (bs : Bytes)
    → drop r.pos r.buf ≡ []
    → upcoming r ≡ b ∷ bs
    → (r' : Reader) × (fill r ≡ (r', ok tt)) × IsReady r' b bs
unfolding fill
fill-IsReady r b bs e h =
    receive-IsReady r.input (record r { buf = drop r.pos r.buf; pos = 0 }) b bs e refl
      (ap (λ (t : Bytes). t ++ coming r.input) (sym e) ∙ h)

-- Where a byte is to come, it is peeked: in the buffer, or in the one that the next read fills.
peek_round :
    (r : Reader) → peek_byte r ≡ after_round (loop peek_body) (peek_at (get_elem? r.buf r.pos) r)
unfolding peek_byte peek_body
peek_round r = loop_unroll peek_body peek_body-IsRound tt r

peek_there : (r : Reader) (b : ℕ) (bs : Bytes) → IsReady r b bs → peek_byte r ≡ (r, ok b)
peek_there r b bs (ys, e, more) =
    peek_round r
    ∙ ap (λ o. after_round (loop peek_body) (peek_at o r)) (elem_drop r.buf r.pos b ys e)

peek_after_fill :
    (r r' : Reader) → drop r.pos r.buf ≡ [] → fill r ≡ (r', ok tt) → peek_byte r ≡ peek_byte r'
unfolding peek_byte
peek_after_fill r r' e run =
    peek_round r
    ∙ ap (λ o. after_round (loop peek_body) (peek_at o r)) (elem_none r.buf r.pos e)
    ∙ ap (λ s. after_round (loop peek_body) (after_step s (λ u. return (inl u)))) run

IsReady-now :
    (r : Reader) (b : ℕ) (bs xs : Bytes)
    → drop r.pos r.buf ≡ xs
    → xs ++ coming r.input ≡ b ∷ bs
    → (r' : Reader) × (peek_byte r ≡ (r', ok b)) × IsReady r' b bs
IsReady-now r b bs [] e h =
    let (r', run, is) = fill-IsReady r b bs e (ap (λ (t : Bytes). t ++ coming r.input) e ∙ h) in
    (r', peek_after_fill r r' e run ∙ peek_there r' b bs is, is)
IsReady-now r b bs (x ∷ xs) e h =
    let (same, more) = uncons x b (xs ++ coming r.input) bs h in
    let is : IsReady r b bs = (xs, e ∙ ap (λ n. n ∷ xs) same, more) in (r, peek_there r b bs is, is)

pub peek-IsReady :
    (r : Reader) (b : ℕ) (bs : Bytes)
    → upcoming r ≡ b ∷ bs
    → (r' : Reader) × (peek_byte r ≡ (r', ok b)) × IsReady r' b bs
peek-IsReady r b bs h = IsReady-now r b bs (drop r.pos r.buf) refl h

pub IsReady-upcoming : (r : Reader) (b : ℕ) (bs : Bytes) → IsReady r b bs → upcoming r ≡ b ∷ bs
IsReady-upcoming r b bs (ys, e, more) =
    ap (λ (t : Bytes). t ++ coming r.input) e ∙ ap (λ (t : Bytes). b ∷ t) more

pub peek_byte-Gets : (b : ℕ) (bs : Bytes) → Gets peek_byte (b ∷ bs) b (b ∷ bs)
peek_byte-Gets b bs =
    gets
      (λ r h. let (r', run, is) = peek-IsReady r b bs h in (r', run, IsReady-upcoming r' b bs is))

pub consume_byte-Gets : (b : ℕ) (bs : Bytes) → Gets consume_byte (b ∷ bs) b bs
unfolding consume_byte
consume_byte-Gets b bs = gets (λ r h.
    let (r', run, (ys, e, more)) = peek-IsReady r b bs h in
    (
      record r' { pos = r'.pos + 1 },
      ap (λ s. after_step s advance) run,
      ap (λ (t : Bytes). t ++ coming r'.input) (drop_next r'.buf r'.pos b ys e) ∙ more,
    ))
