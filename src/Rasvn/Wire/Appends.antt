-- ===== src/Rasvn/Wire/Appends.antt =====
-- Every operation of the encoder (src/rasvn/wire.rs) appends to its output and does not read it.
use svn.Base.{
  ℕ, ◌≡◌, refl, sym, ap, ◌∙◌, [], ◌∷◌, ◌++◌, List, append-nil, append_assoc, Bytes, length, text,
  Bool, true, false, ◌==◌, Bool-cases, inl, inr,
}
use svn.Rasvn.Wire.{
  encode_decimal_u64, encode_decimal_usize, word, number, bool, string_bytes, string_str,
  list_start, list_end, newline,
}

abbrev pub Appends : (Bytes → Bytes) → Type 0
Appends f = (out : Bytes) → f out ≡ out ++ f []

-- One operation after another.
pub Appends-compose : (f g : Bytes → Bytes) → Appends f → Appends g → Appends (λ out. g (f out))
Appends-compose f g a b out =
    b (f out)
    ∙ ap (λ t. t ++ g []) (a out)
    ∙ append_assoc out (f []) (g [])
    ∙ ap (λ t. out ++ t) (sym (b (f [])))

-- Plain bytes behind what an operation writes.
pub Appends-then : (f : Bytes → Bytes) (more : Bytes) → Appends f → Appends (λ out. f out ++ more)
Appends-then f more a out = ap (λ t. t ++ more) (a out) ∙ append_assoc out (f []) more

pub Appends-bytes : (more : Bytes) → Appends (λ out. out ++ more)
Appends-bytes more out = refl

encode_decimal_u64-Appends : (n : ℕ) → Appends (encode_decimal_u64 n)
unfolding encode_decimal_u64
encode_decimal_u64-Appends n out = elim (Bool-cases (n == 0)) [
  | inl e ↦ rw e refl
  | inr e ↦ rw e refl
]

pub word-Appends : (w : Bytes) → Appends (word w)
unfolding word
word-Appends w = Appends-then (λ out. out ++ w) (32 ∷ []) (Appends-bytes w)

pub number-Appends : (n : ℕ) → Appends (number n)
unfolding number
number-Appends n = Appends-then (encode_decimal_u64 n) (32 ∷ []) (encode_decimal_u64-Appends n)

pub bool-Appends : (b : Bool) → Appends (bool b)
unfolding bool
bool-Appends true = Appends-bytes (text "true ")
bool-Appends false = Appends-bytes (text "false ")

pub string_str-Appends : (s : Bytes) → Appends (string_str s)
unfolding string_str string_bytes encode_decimal_usize
string_str-Appends s =
    let digits = encode_decimal_u64-Appends (length s) in
    let colon = Appends-then (encode_decimal_u64 (length s)) (58 ∷ []) digits in
    let bytes = Appends-then (λ out. encode_decimal_u64 (length s) out ++ (58 ∷ [])) s colon in
    Appends-then (λ out. (encode_decimal_u64 (length s) out ++ (58 ∷ [])) ++ s) (32 ∷ []) bytes

pub list_start-Appends : Appends list_start
unfolding list_start
list_start-Appends out = refl

pub list_end-Appends : Appends list_end
unfolding list_end
list_end-Appends out = refl

pub newline-Appends : Appends newline
unfolding newline
newline-Appends out = refl

-- A sequence of operations.
abbrev pub run_all : List (Bytes → Bytes) → Bytes → Bytes
run_all [] out = out
run_all (f ∷ fs) out = run_all fs (f out)

abbrev pub AllAppend : List (Bytes → Bytes) → Type 0
AllAppend [] = Unit
AllAppend (f ∷ fs) = Appends f × AllAppend fs

pub run_all-Appends : (fs : List (Bytes → Bytes)) → AllAppend fs → Appends (run_all fs)
run_all-Appends [] h out = sym (append-nil out)
run_all-Appends (f ∷ fs) (a, h) out = Appends-compose f (run_all fs) a (run_all-Appends fs h) out
