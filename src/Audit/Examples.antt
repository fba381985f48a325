-- ===== src/Audit/Examples.antt =====
-- A small codec and a chain of one block, to run noema/audit/merkle.py on.
use Prim.Native.Char.{code}
use Prim.Native.String.{String}
use noema.Prelude.{
  ℕ, zero, suc, ◌+◌, ◌*◌, ◌%◌, ◌≡◌, refl, ap, ◌∙◌, arith, some, [], ◌∷◌, ◌==◌, if◌then◌else◌,
  replicate,
}
use noema.Audit.Bytes.{Bytes}
use noema.Audit.Chain.Log.{Codec}

checksum : Bytes → ℕ
checksum [] = 1
checksum (x ∷ xs) = (x + 3 * checksum xs) % 256

-- A digest of 32 bytes.
unfoldable pub digest : Bytes → Bytes
unfolding checksum
digest xs = checksum xs ∷ replicate 31 0

unfoldable pub marks : ℕ → String → String
marks zero t = t
marks (suc n) t = String.◌∷◌ "|" (marks n t)

-- A text for bytes: as many strokes as the byte says, and a stop.
unfoldable pub to_text : Bytes → String
unfolding marks
to_text [] = String.[]
to_text (x ∷ xs) = marks x (String.◌∷◌ "." (to_text xs))

unfoldable pub from_text : ℕ → String → Bytes
from_text strokes String.[] = []
from_text strokes (String.◌∷◌ c t) =
    let longer = from_text (strokes + 1) t in
    let next = from_text 0 t in if code c == 124 then longer else strokes ∷ next

from_text-marks :
    (n strokes : ℕ) → (t : String) → from_text strokes (marks n t) ≡ from_text (strokes + n) t
unfolding from_text marks
from_text-marks zero strokes t = ap (λ k. from_text k t) (omega arith)
from_text-marks (suc n) strokes t =
    from_text-marks n (strokes + 1) t ∙ ap (λ k. from_text k t) (omega arith)

from_text-to_text : (xs : Bytes) → from_text 0 (to_text xs) ≡ xs
unfolding from_text to_text marks
from_text-to_text [] = refl
from_text-to_text (x ∷ xs) =
    from_text-marks x 0 (String.◌∷◌ "." (to_text xs))
    ∙ ap (λ k. k ∷ from_text 0 (to_text xs)) (omega arith)
    ∙ ap (◌∷◌ x) (from_text-to_text xs)

abbrev pub codec : Codec Bytes
codec = record {
  hash = digest;
  serialize = λ p. p;
  created = from_text 0;
  completed = λ task tenant. from_text 0 task;
  solution_generation = 1 ∷ [];
  hex = to_text;
  from_hex = λ t. some (from_text 0 t);
  decode = to_text;
  encode = from_text 0;
}

pub hex_back : (b : Bytes) → codec.from_hex (codec.hex b) ≡ some b
hex_back b = ap some (from_text-to_text b)

pub decode_back : (b : Bytes) → codec.encode (codec.decode b) ≡ b
decode_back b = from_text-to_text b
