-- ===== src/Cache/Lifetimes.antt =====
-- `SET NX` with a lifetime (src/common/services/redis.service.ts).
use beba_sacco_backend.Base.{ℕ, ◌<◌, ◌==◌, if◌then◌else◌, false, Key, ◌≡◌, refl, arith}
use beba_sacco_backend.Cache.{Client, set_if_absent}

not_zero : (n : ℕ) → 0 < n → (n == 0) ≡ false
not_zero n h = ground arith

pub set_if_absent-lasting :
    {C : Type 0} (client : Client C) (k v : Key) (ttl now : ℕ) (c : C)
    → 0 < ttl
    → set_if_absent client k v ttl now c
      ≡ (if client.answers c then client.set_nx k v ttl now c else (false, c))
unfolding set_if_absent
set_if_absent-lasting client k v ttl now c h = rw (not_zero ttl h) refl
