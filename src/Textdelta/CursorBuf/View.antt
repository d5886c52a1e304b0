-- ===== src/Textdelta/CursorBuf/View.antt =====
-- What a reader of the buffer sees: the operations on the bytes not yet consumed.
use svn.Base.{
  ℕ, ◌+◌, ◌*◌, ◌≤◌, ◌≡◌, refl, sym, ◌∙◌, arith, [], ◌∷◌, ◌++◌, append-nil, Bytes, length, drop,
  length-append, drop-append, drop-drop, drop_all, length-drop, ltb, leb, ◌&&◌, Bool-cases, inl,
  inr,
}
use svn.Base.Words.{u64_max}
use svn.Textdelta.CursorBuf.{CursorBuf, available, push, consume}
use Prim.Native.Nat.{min}

pub available-push :
    (c : CursorBuf) (bs : Bytes)
    → c.start ≤ length c.buf
    → available (push c bs) ≡ available c ++ bs
unfolding available push
available-push c [] h = sym (append-nil _)
available-push c (b ∷ bs) h = drop-append c.start c.buf (b ∷ bs) h

pub push_bounds :
    (c : CursorBuf) (bs : Bytes)
    → c.start ≤ length c.buf
    → ((push c bs).start ≤ length (push c bs).buf)
      × (length (push c bs).buf ≡ length c.buf + length bs)
unfolding push
push_bounds c [] h = omega arith
push_bounds c (b ∷ bs) h = omega (arith, length-append c.buf (b ∷ bs))

consume_cases :
    (c : CursorBuf) (n : ℕ)
    → c.start + n ≤ u64_max
    → (available (consume c n) ≡ drop (c.start + n) c.buf)
      × ((consume c n).start ≤ length (consume c n).buf)
      × (length (consume c n).buf ≤ length c.buf)
unfolding available consume
consume_cases c n h =
    let e : min (c.start + n) u64_max ≡ c.start + n = omega arith in
    rw e (elim (Bool-cases (leb (length c.buf) (c.start + n))) [
      | inl past ↦
          rw past (sym (drop_all (c.start + n) c.buf (ground arith)), omega arith, omega arith)
      | inr inside ↦
          elim (Bool-cases (ltb 4096 (c.start + n) && ltb (length c.buf) ((c.start + n) * 2))) [
            | inl far ↦
                rw (inside, far) (refl, omega arith, omega (arith, length-drop (c.start + n) c.buf))
            | inr near ↦ rw (inside, near) (refl, ground arith, omega arith)
          ]
    ])

-- Where the read position does not overflow, consuming drops that much of what is available, whether or not the buffer is compacted, and
-- keeps the read position inside a buffer that does not grow.
pub consume_lem :
    (c : CursorBuf) (n : ℕ)
    → c.start + n ≤ u64_max
    → (available (consume c n) ≡ drop n (available c))
      × ((consume c n).start ≤ length (consume c n).buf)
      × (length (consume c n).buf ≤ length c.buf)
consume_lem c n h =
    let (a, b, d) = consume_cases c n h in
    (a ∙ sym (unfold available in drop-drop c.start n c.buf), b, d)
