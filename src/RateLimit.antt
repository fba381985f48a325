-- ===== src/RateLimit.antt =====
-- The class `_SlidingWindowCounter` of noema/api/rate_limit.py. Times are milliseconds of one clock,
-- as is the window; the dictionary of hits is an association list. Each method holds the lock for
-- its whole body, so that calls do not interleave.
pub mod Store
pub mod Window
mod Tests
use Prim.Native.String.{String}
use text.Mathlib.Text.{◌==◌ as str_eq}
use noema.Prelude.{
  ℕ, zero, suc, ◌+◌, ◌-◌, ◌*◌, ◌/◌, Bool, true, false, ◌&&◌, List, [], ◌∷◌, ◌++◌, Option, none,
  some, ltb, leb, if◌then◌else◌, length, Result, ok, raise,
}

abbrev pub Hits : Type 0
Hits = List (String × List ℕ)

pub record Counter : Type 0 where
  pub window : ℕ
  pub max_requests : ℕ
  pub hits : Hits

pub data Error : Type 0 where
  index_error : Error

-- The headers of an answer; only a refusal has a time to wait.
pub record Headers : Type 0 where
  pub limit : ℕ
  pub remaining : ℕ
  pub reset_at : ℕ
  pub retry_after : Option ℕ

-- `self._hits.get(key, [])`
unfoldable pub hits_of : String → Hits → List ℕ
hits_of key [] = []
hits_of key ((k, ts) ∷ hits) = if str_eq key k then ts else hits_of key hits

unfoldable pub put : String → List ℕ → Hits → Hits
put key ts [] = (key, ts) ∷ []
put key ts ((k, us) ∷ hits) = if str_eq key k then (key, ts) ∷ hits else (k, us) ∷ put key ts hits

unfoldable pub delete : String → Hits → Hits
delete key [] = []
delete key ((k, ts) ∷ hits) = if str_eq key k then delete key hits else (k, ts) ∷ delete key hits

-- `[t for t in hits if t > now - window]`
unfoldable pub recent : ℕ → ℕ → List ℕ → List ℕ
recent window now [] = []
recent window now (t ∷ ts) =
    if ltb now (t + window) then t ∷ recent window now ts else recent window now ts

-- The list is assigned, and an empty one is deleted with its key.
unfoldable pub put_or_delete : String → List ℕ → Hits → Hits
put_or_delete key [] hits = delete key hits
put_or_delete key (t ∷ ts) hits = put key (t ∷ ts) hits

unfoldable pub prune : String → ℕ → Counter → Counter
unfolding recent
prune key now c = elim (hits_of key c.hits) [
  | [] ↦ c
  | t ∷ ts ↦ record c { hits = put_or_delete key (recent c.window now (t ∷ ts)) c.hits }
]

-- A refusal names the time until the oldest hit leaves the window; with no hit `[0]` raises.
unfoldable pub refuse : ℕ → List ℕ → Counter → Result Error (Bool × Headers)
refuse now [] c = raise Error.index_error
refuse now (first ∷ ts) c = ok (
  false,
  record {
    limit = c.max_requests;
    remaining = 0;
    reset_at = (now + c.window) / 1000;
    retry_after = some ((c.window + first - now) / 1000 + 1);
  },
)

-- `allow` at the time `now`.
unfoldable pub allow : ℕ → String → Counter → Counter × Result Error (Bool × Headers)
unfolding refuse
allow now key c =
    let c = prune key now c in
    let current = hits_of key c.hits in
    if leb c.max_requests (length current) then (c, refuse now current c) else (
      record c { hits = put key (current ++ now ∷ []) c.hits },
      ok (
        true,
        record {
          limit = c.max_requests;
          remaining = c.max_requests - length current - 1;
          reset_at = (now + c.window) / 1000;
          retry_after = none;
        },
      ),
    )

-- `not v or max(v) < now - 2 * window`
abbrev pub is_stale : ℕ → ℕ → List ℕ → Bool
is_stale window now [] = true
is_stale window now (t ∷ ts) = ltb (t + 2 * window) now && is_stale window now ts

-- One round of `_periodic_cleanup`.
unfoldable pub clean_up : ℕ → ℕ → Hits → Hits
clean_up window now [] = []
clean_up window now ((k, ts) ∷ hits) =
    if is_stale window now ts then clean_up window now hits else (k, ts) ∷ clean_up window now hits
