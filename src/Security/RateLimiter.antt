-- ===== src/Security/RateLimiter.antt =====
-- security/rate_limiter.py: the sliding-window limiter. Its lock makes a check one step. Times and
-- windows are in hundredths of a second, the precision to which the code rounds what it returns.
pub mod Window
pub mod Bound
use enterprise_multi_agent_o.Base.{
  ℕ, zero, suc, ◌+◌, ◌-◌, ◌*◌, String, ◌≡◌, refl, Bool, true, false, not, ◌&&◌, ◌||◌, Option, none,
  some, List, [], ◌∷◌, ◌++◌, ltb, leb, ◌==◌, if◌then◌else◌, string_eq, or_else, arith,
}
use enterprise_multi_agent_o.Base.Dict.{Dict, keys, lookup, erase}
use enterprise_multi_agent_o.Base.Lists.{length, select, last?, head?}
use enterprise_multi_agent_o.Errors.{Exception, other, Result, ok, raises}

-- The history of each key, the least recently checked first.
abbrev pub Store : Type 0
Store = Dict String (List ℕ)

-- is_allowed, remaining_quota and retry_after_seconds.
pub record Quota : Type 0 where
  pub is_allowed : Bool
  pub remaining : ℕ
  pub retry_after : ℕ

-- `self._store.get(key, [])`
unfoldable pub history : String → Store → List ℕ
unfolding lookup
history key store = or_else (lookup key store) []

-- The last check of a key lies more than two windows back.
unfoldable pub is_stale : (now window : ℕ) → List ℕ → Bool
is_stale now window times = elim (last? times) [ none ↦ true | some t ↦ ltb (t + window * 2) now ]

-- `for k in stale_keys: self._store.pop(k, None)`
unfoldable pub drop_keys : List String → Store → Store
unfolding erase
drop_keys [] store = store
drop_keys (k ∷ ks) store = drop_keys ks (erase k store)

-- Step 1: the stale keys go when the store has more than `max_keys`.
unfoldable pub clean_up : (max_keys now window : ℕ) → Store → Store
unfolding drop_keys is_stale history
clean_up max_keys now window store =
    if ltb max_keys (length store)
    then drop_keys (select (λ k. is_stale now window (history k store)) (keys store)) store
    else store

-- `t > window_start`
abbrev pub in_window : (now window t : ℕ) → Bool
in_window now window t = ltb now (t + window)

-- `self._store[key] = times` with `move_to_end`.
unfoldable pub put_last : String → List ℕ → Store → Store
unfolding erase
put_last key times store = erase key store ++ ((key, times) ∷ [])

abbrev max : ℕ → ℕ → ℕ
max a b = if ltb a b then b else a

-- `valid_timestamps[0]` fails on an empty list, which `max_requests = 0` leads to.
unfoldable pub check_rate_limit :
    (max_keys now : ℕ) (key : String) (max_requests window : ℕ) → Store → Result Quota × Store
unfolding clean_up history put_last
check_rate_limit max_keys now key max_requests window store =
    let cleaned = clean_up max_keys now window store in
    let valid = select (in_window now window) (history key cleaned) in
    if leb max_requests (length valid)
    then elim (head? valid) [
      | none ↦ (raises (other "IndexError: list index out of range"), cleaned)
      | some earliest ↦ (
        ok (record {
          is_allowed = false;
          remaining = 0;
          retry_after = max 10 (window + earliest - now);
        }),
        put_last key valid cleaned,
      )
    ]
    else (
      ok (record {
        is_allowed = true;
        remaining = max_requests - length (valid ++ (now ∷ []));
        retry_after = 0;
      }),
      put_last key (valid ++ (now ∷ [])) cleaned,
    )

unfoldable pub reset : Store → Store
reset _ = []
