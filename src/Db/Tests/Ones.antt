-- ===== src/Db/Tests/Ones.antt =====
-- Numbers as ones in a text, for the tokens of the tests.
use Prim.Native.Char.{code}
use Prim.Native.String.{[], ◌∷◌}
use text.Mathlib.TextLemmas.{head-eq_of_cons-eq, cons-ne-nil}
use trustyca.Base.{ℕ, zero, suc, String, ◌≡◌, ◌≢◌, refl, ap, Bool, true, false, ◌==◌, arith}

-- a number as ones, up to a zero
abbrev ones : ℕ → String → String
ones zero rest = "0" ∷ rest
ones (suc n) rest = "1" ∷ ones n rest

abbrev next_one : Bool → String → ℕ × String → ℕ × String
next_one false s later = (0, s)
next_one true s later = (suc later.0, later.1)

abbrev read_ones : String → ℕ × String
read_ones [] = (0, [])
read_ones (c ∷ s) = next_one (code c == 49) s (read_ones s)

read_ones-ones : (n : ℕ) (rest : String) → read_ones (ones n rest) ≡ (n, rest)
read_ones-ones zero rest = refl
read_ones-ones (suc n) rest = ap (λ q. (suc q.0, q.1)) (read_ones-ones n rest)

abbrev pub id_token : ℕ → String
id_token id = ones id []

abbrev pub pair_token : ℕ → ℕ → String
pair_token at id = ones at (ones id [])

abbrev pub text_token : String → ℕ → String
text_token name id = ones id name

-- every token starts with a letter that neither of the words starts with
abbrev pub keyed : String → String
keyed s = "k" ∷ s

abbrev after_key : String → String
after_key [] = []
after_key (c ∷ s) = s

abbrev pub scan_one : String → ℕ
scan_one s = (read_ones (after_key s)).0

abbrev pub scan_pair : String → ℕ × ℕ
scan_pair s = let q = read_ones (after_key s) in (q.0, (read_ones q.1).0)

abbrev pub scan_text : String → String × ℕ
scan_text s = let q = read_ones (after_key s) in (q.1, q.0)

pub scan_one-id_token : (id : ℕ) → scan_one ("k" ∷ id_token id) ≡ id
scan_one-id_token id = ap (λ q. q.0) (read_ones-ones id [])

pub scan_pair-pair_token : (at id : ℕ) → scan_pair ("k" ∷ pair_token at id) ≡ (at, id)
scan_pair-pair_token at id = rw (read_ones-ones at (ones id []), read_ones-ones id [])

pub scan_text-text_token :
    (name : String) (id : ℕ) → scan_text ("k" ∷ text_token name id) ≡ (name, id)
scan_text-text_token name id = ap (λ q. (q.1, q.0)) (read_ones-ones id name)

-- a token is neither of the words
pub keyed-empty : (s : String) → ("k" ∷ s) ≢ ""
keyed-empty s h = cons-ne-nil "k" s h

pub keyed-initial : (s : String) → ("k" ∷ s) ≢ "initial"
keyed-initial s h = let e : ◌≡◌ {A = ℕ} 107 105 = ap code (head-eq_of_cons-eq h) in omega arith
