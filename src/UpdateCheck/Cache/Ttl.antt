-- ===== src/UpdateCheck/Cache/Ttl.antt =====
-- How often the server is asked.
use catnap.Common.{
  ℕ, ◌+◌, String, true, false, ◌≡◌, ap, refl, ◌∙◌, List, [], ◌∷◌, Option, none, some, arith, ltb,
  Bool-cases, inl, inr, all,
}
use catnap.Config.{RuntimeConfig}
use catnap.UpdateCheck.{UpdateCheckCache}
use catnap.UpdateCheck.Cache.{Answer, ttl_of, is_stale, maybe_refresh}

-- A call that is not forced.
pub record Call : Type 0 where
  pub now_unix : ℕ
  pub checked_at : String
  pub checked_at_unix : ℕ
  pub answer : Answer

unfoldable pub calls :
    {F : Type 0} → RuntimeConfig F → UpdateCheckCache → List Call → UpdateCheckCache
calls cfg cache [] = cache
calls cfg cache (c ∷ cs) =
    calls cfg (maybe_refresh cfg cache false c.now_unix c.checked_at c.checked_at_unix c.answer) cs

fresh-unchanged :
    {F : Type 0} (cfg : RuntimeConfig F) (cache : UpdateCheckCache) (c : Call)
    → is_stale c.now_unix (ttl_of cfg.update_check_ttl_seconds) cache.checked_at_unix ≡ false
    → maybe_refresh cfg cache false c.now_unix c.checked_at c.checked_at_unix c.answer ≡ cache
unfolding maybe_refresh
fresh-unchanged cfg cache c fresh = elim (Bool-cases cfg.update_check_enabled) [
  | inl on ↦ rw (on, maybe_refresh) (rw fresh refl)
  | inr off ↦ rw (off, maybe_refresh) refl
]

young-fresh :
    (now at ttl : ℕ) (checked : Option ℕ)
    → checked ≡ some at
    → ltb now (at + ttl) ≡ true
    → is_stale now ttl checked ≡ false
young-fresh now at ttl none h young = cc
young-fresh now at ttl (some t) h young = ground arith

-- While the cache is younger than the configured time, calls that are not forced leave it as it is,
-- however many there are and whatever the server would answer.
ttl_respected :
    {F : Type 0} (cfg : RuntimeConfig F) (cache : UpdateCheckCache) (at : ℕ) (cs : List Call)
    → cache.checked_at_unix ≡ some at
    → all (λ c. ltb c.now_unix (at + ttl_of cfg.update_check_ttl_seconds)) cs ≡ true
    → calls cfg cache cs ≡ cache
unfolding calls
ttl_respected cfg cache at [] h young = refl
ttl_respected cfg cache at (c ∷ cs) h young =
    ap (λ next. calls cfg next cs)
      (fresh-unchanged cfg cache c (
        young-fresh c.now_unix at (ttl_of cfg.update_check_ttl_seconds) cache.checked_at_unix h
          (ground arith)))
    ∙ ttl_respected cfg cache at cs h (ground arith)
