-- ===== src/Auth/Lockout/Memory.antt =====
-- A Redis in memory that keeps the promises.
use recruitment_platform_be.Prelude.{◌+◌, ◌*◌, refl, Option, none, some, if◌then◌else◌}
use recruitment_platform_be.Auth.Lockout.{
  Key, same_key, Entry, live, Redis, IsRedis, next_value, incremented, expiring,
}

abbrev pub Memory : Type 0
Memory = Key → Option Entry

abbrev put : Key → Option Entry → Memory → Memory
put k entry r g = if same_key k g then entry else r g

abbrev pub redis : Redis Memory
redis = record {
  entry = λ k r. r k;
  incr = λ k now r. (next_value (live now (r k)), put k (some (incremented (live now (r k)))) r);
  expire = λ k seconds now r. put k (expiring (now + 1000 * seconds) (live now (r k))) r;
  set_ex = λ k seconds now r.
      put k (some (record { value = 1; expires_at = some (now + 1000 * seconds) })) r;
  del = λ k r. put k none r;
}

pub redis-IsRedis : IsRedis redis
redis-IsRedis = record {
  incr_value = λ k now r. refl;
  incr_entry = λ k g now r. refl;
  expire_entry = λ k g seconds now r. refl;
  set_entry = λ k g seconds now r. refl;
  del_entry = λ k g r. refl;
}
