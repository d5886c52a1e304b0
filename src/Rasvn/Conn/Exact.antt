-- ===== src/Rasvn/Conn/Exact.antt =====
-- `read_exact_vec` of src/rasvn/conn/io.rs over the bytes to come.
use svn.Base.{
  ℕ, zero, suc, ◌+◌, ◌^◌, ◌≤◌, ◌<◌, ◌≡◌, refl, sym, ap, ◌∙◌, arith, [], ◌∷◌, ◌++◌, Bytes, length,
  length-append, take, drop, length-take, length-drop, take-append-drop, append_assoc, append-nil,
  ltb, lt→ltb, le→ltb, if◌then◌else◌, ok, inl, inr,
}
use svn.Rasvn.Conn.Read.{Reader, ◌>>=◌, after_step, return, loop, after_round}
use svn.Rasvn.Conn.Io.{fill, take_available, read_exact_body, read_exact_vec}
use svn.Rasvn.Conn.Progress.{loop_unroll}
use svn.Rasvn.Conn.Rounds.{read_exact_body-IsRound}
use svn.Rasvn.Conn.Stream.{Gets, gets, if_true-Gets, fill-IsReady, upcoming, coming}
use svn.Rasvn.Conn.Tokens.{take_step}

-- An empty buffer is filled first.
after_fill :
    (n : ℕ) (out : Bytes) (r r' : Reader)
    → length out < n
    → drop r.pos r.buf ≡ []
    → fill r ≡ (r', ok tt)
    → loop (read_exact_body n) out r ≡ loop (read_exact_body n) out r'
unfolding read_exact_body
after_fill n out r r' more e run =
    loop_unroll (read_exact_body n) (read_exact_body-IsRound n) out r
    ∙ ap
        (λ b. after_round (loop (read_exact_body n)) (
          (if b
              then (if ltb r.pos (length r.buf)
                  then take_available n out
                  else (fill >>= λ _. return (inl out)))
              else return (inr out))
            r))
        (lt→ltb (length out) n more)
    ∙ ap
        (λ b.
          after_round (loop (read_exact_body n))
            ((if b then take_available n out else (fill >>= λ _. return (inl out))) r))
        (le→ltb r.pos (length r.buf) (omega (arith, sym (length-drop r.pos r.buf) ∙ ap length e)))
    ∙ ap (λ s. after_round (loop (read_exact_body n)) (after_step s (λ _. return (inl out)))) run

some_taken :
    (n : ℕ) (out : Bytes) (x : ℕ) (xs bs : Bytes) (r : Reader) (d : Bytes)
    → length out + suc (length xs) ≡ n
    → drop r.pos r.buf ≡ d
    → d ++ coming r.input ≡ (x ∷ xs) ++ bs
    → (r' : Reader) × (c : ℕ) × (1 ≤ c)
      × (loop (read_exact_body n) out r ≡ loop (read_exact_body n) (out ++ take c (x ∷ xs)) r')
      × (upcoming r' ≡ drop c (x ∷ xs) ++ bs)
some_taken n out x xs bs r [] e here h =
    let (r₁, run, ready) =
      fill-IsReady r x (xs ++ bs) here (ap (λ (t : Bytes). t ++ coming r.input) here ∙ h) in
    let (r', c, one, same, left) = take_step n out x xs bs r₁ e ready in
    (r', c, one, after_fill n out r r₁ (omega (arith, e)) here run ∙ same, left)
some_taken n out x xs bs r (y ∷ ys) e here h =
    take_step n out x xs bs r e (ys, here ∙ ap (λ b. b ∷ ys) (first_eq y x h), rest_eq y x h)
  where
    first_eq : (y x : ℕ) {ys zs : Bytes} → y ∷ ys ≡ x ∷ zs → y ≡ x
    first_eq y x h = cc h

    rest_eq : (y x : ℕ) {ys zs : Bytes} → y ∷ ys ≡ x ∷ zs → ys ≡ zs
    rest_eq y x h = cc h

exact_done :
    (n : ℕ) (out : Bytes) (r : Reader)
    → n ≤ length out
    → loop (read_exact_body n) out r ≡ (r, ok out)
unfolding read_exact_body
exact_done n out r h =
    loop_unroll (read_exact_body n) (read_exact_body-IsRound n) out r
    ∙ ap
        (λ b. after_round (loop (read_exact_body n)) (
          (if b
              then (if ltb r.pos (length r.buf)
                  then take_available n out
                  else (fill >>= λ _. return (inl out)))
              else return (inr out))
            r))
        (le→ltb (length out) n h)

exact_all :
    (k n : ℕ) (xs out bs : Bytes) (r : Reader)
    → length xs ≤ k
    → length out + length xs ≡ n
    → upcoming r ≡ xs ++ bs
    → (r' : Reader) × (loop (read_exact_body n) out r ≡ (r', ok (out ++ xs))) × (upcoming r' ≡ bs)
exact_all k n [] out bs r h e up = (
  r,
  exact_done n out r (omega (arith, e)) ∙ ap (λ (t : Bytes). (r, ok t)) (sym (append-nil out)),
  up,
)
exact_all zero n (x ∷ xs) out bs r h e up = absurd (omega (arith, h))
exact_all (suc k) n (x ∷ xs) out bs r h e up =
    let (r₁, c, one, same, left) = some_taken n out x xs bs r (drop r.pos r.buf) e refl up in
    let (r', run, left') =
      exact_all k n (drop c (x ∷ xs)) (out ++ take c (x ∷ xs)) bs r₁
        (omega (arith, one, h, length-drop c (x ∷ xs)))
        (omega (
          arith,
          one,
          e,
          length-drop c (x ∷ xs),
          length-take c (x ∷ xs),
          length-append out (take c (x ∷ xs)),
        ))
        left in
    (
      r',
      same
          ∙ run
          ∙ ap (λ (t : Bytes). (r', ok t))
              (append_assoc out (take c (x ∷ xs)) (drop c (x ∷ xs))
                ∙ ap (λ (t : Bytes). out ++ t) (take-append-drop c (x ∷ xs))),
      left',
    )

-- As many bytes as were asked for, in whichever reads they come.
pub read_exact_vec-Gets :
    (xs bs : Bytes) → length xs < 2 ^ 63 → Gets (read_exact_vec (length xs)) (xs ++ bs) xs bs
unfolding read_exact_vec
read_exact_vec-Gets xs bs h =
    if_true-Gets _ (lt→ltb (length xs) (2 ^ 63) h)
      (gets (λ r up. exact_all (length xs) (length xs) xs [] bs r (omega arith) (omega arith) up))
