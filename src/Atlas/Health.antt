-- ===== src/Atlas/Health.antt =====
-- src/primal_ai/atlas/_health.py: the counters and the cooldown window of one provider. A method
-- takes the reading of `time.monotonic()` that it makes. Times count ticks of that clock.
use primal_core.Base.{ℕ, ◌+◌, Bool, leb}

pub record ProviderHealth : Type 0 where
  pub consecutive_failures : ℕ
  pub total_calls : ℕ
  pub total_failures : ℕ
  pub cooldown_until : ℕ

-- `ProviderHealth.__init__`
abbrev pub new_health : ProviderHealth
new_health = record {
  consecutive_failures = 0;
  total_calls = 0;
  total_failures = 0;
  cooldown_until = 0;
}

-- `time.monotonic() >= self.cooldown_until`
unfoldable pub is_healthy : ℕ → ProviderHealth → Bool
is_healthy now h = leb h.cooldown_until now

unfoldable pub record_success : ProviderHealth → ProviderHealth
record_success h = record h {
  consecutive_failures = 0;
  total_calls = h.total_calls + 1;
  cooldown_until = 0;
}

unfoldable pub record_failure : ℕ → ℕ → ProviderHealth → ProviderHealth
record_failure now cooldown_seconds h = record {
  consecutive_failures = h.consecutive_failures + 1;
  total_calls = h.total_calls + 1;
  total_failures = h.total_failures + 1;
  cooldown_until = now + cooldown_seconds;
}

unfoldable pub reset : ProviderHealth → ProviderHealth
reset h = record h { consecutive_failures = 0; cooldown_until = 0 }
