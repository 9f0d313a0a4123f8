-- ===== src/Atlas/Provider.antt =====
-- src/primal_ai/atlas/_provider.py and the parts of atlas/_decision.py and atlas/bandit.py that
-- the router passes around. `V` is the type of Python values, `B` the arms of all selectors.
-- A provider's `call` is the user's code: it gets the task, the keyword arguments and the time at
-- which it starts, and gives its outcome and the time that it takes.
use primal_core.Base.Int.{ℤ}
use primal_core.Base.{ℕ, String, Bool, Option, List, [], Outcome, contains, get_or, Dict.{Dict}}

-- The advisory estimates and the metadata take no part in routing and are left out.
pub record ProviderInfo : Type 0 where
  pub name : String
  pub description : String
  pub capabilities : List String
  pub tags : List String

unfoldable pub has_capability : ProviderInfo → String → Bool
has_capability info name = contains name info.capabilities

unfoldable pub has_tag : ProviderInfo → String → Bool
has_tag info tag = contains tag info.tags

pub record Provider (V : Type 0) : Type 0 where
  pub name : String
  pub info : ProviderInfo
  pub call : String → Dict V → ℕ → Outcome V × ℕ

-- `BYOProvider.__init__`: the `info` is built with defaults if it is omitted.
unfoldable pub byo_provider :
    {V : Type 0} → String → (String → Dict V → ℕ → Outcome V × ℕ) → Option ProviderInfo → Provider V
byo_provider name call info = record {
  name = name;
  info = get_or info (record { name = name; description = ""; capabilities = []; tags = [] });
  call = call;
}

-- A reward is a float, in millionths.
pub record BanditOutcome : Type 0 where
  pub provider_name : String
  pub success : Bool
  pub reward : ℤ
  pub context_key : String

-- The selector protocol: its methods are the selector's own code, over the arms of all selectors.
pub record Bandit (B : Type 0) : Type 0 where
  pub name : String
  pub select : List String → Option String → B → Outcome (Option String) × B
  pub update : BanditOutcome → B → Outcome (Unit {0}) × B

-- `context["selector"]`: absent, a name, or a `Bandit`.
pub data Override (B : Type 0) : Type 0 where
  no_override : Override B
  by_name : String → Override B
  by_instance : Bandit B → Override B

-- The keys of a routing context that the router reads.
pub record Context (B : Type 0) : Type 0 where
  pub capability : Option String
  pub tags : List String
  pub selector : Override B
  pub bandit_context_key : Option String

pub data RoutingStatus : Type 0 where
  success failed no_candidates all_unhealthy : RoutingStatus

-- Why a candidate was left out: the texts of `candidates_skipped`.
pub data SkipReason : Type 0 where
  not_registered unhealthy : SkipReason
  no_capability : String → SkipReason
  missing_tags : List String → SkipReason

-- The texts of `RoutingDecision.reason`.
pub data Reason : Type 0 where
  no_match none_registered every_in_cooldown : Reason
  no_choice : String → Reason

-- The ids, the wall-clock stamps and the scores of the arms are left out.
pub record RoutingDecision (B : Type 0) : Type 0 where
  pub task : String
  pub chosen_provider : Option String
  pub candidates_considered : List String
  pub candidates_skipped : List (String × SkipReason)
  pub status : RoutingStatus
  pub reason : Option Reason
  pub context : Context B
  pub selector_name : Option String
