-- ===== src/Ttl.antt =====
-- include/ttl: the cache entry, the expiry heap's nodes and the adaptive policy.
pub mod Policy
mod Tests
use shunya_kv.Prelude.{ℕ, ◌+◌, ◌%◌, ◌^◌, Bool, true, false, ◌==◌, if◌then◌else◌}
use shunya_kv.Prelude.Bytes.{Bytes}

pub data PoolType : Type 0 where
  probation sanctuary : PoolType

abbrev pub is_sanctuary : PoolType → Bool
is_sanctuary probation = false
is_sanctuary sanctuary = true

-- The two list hooks are not fields: an entry is linked while it stands in the list.
pub record Entry : Type 0 where
  pub value : Bytes
  pub key : Bytes
  pub expires_at : ℕ
  pub ver : ℕ
  pub heat : ℕ
  pub last_access : ℕ
  pub visited : Bool
  pub pool_type : PoolType
  pub in_use : Bool

-- `ver` is a `uint32_t`.
unfoldable pub update_from : Entry → Entry → Bool → Entry
update_from e new update_ttl =
    if update_ttl
    then record e { value = new.value; expires_at = new.expires_at; ver = (e.ver + 1) % 2 ^ 32 }
    else record e { value = new.value }

-- The entries of a shard, by their numbers.
abbrev pub Memory : Type 0
Memory = ℕ → Entry

abbrev pub write : Memory → ℕ → Entry → Memory
write mem p e q = if p == q then e else mem q
