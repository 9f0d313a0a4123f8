-- ===== src/Atlas/Finding/Tests.antt =====
-- `Atlas.find` on two providers that have a capability, one of them with a tag.
use primal_core.Base.{ℕ, String, some, List, [], ◌∷◌, returned, ◌≡◌, refl}
use primal_core.Base.Dict.{values}
use primal_core.Atlas.Provider.{has_capability, has_tag, Provider}
use primal_core.Atlas.Registry.{ProviderRegistry}
use primal_core.Atlas.Finding.{find}

abbrev provider : String → List String → Provider ℕ
provider n tags = record {
  name = n;
  info = record { name = n; description = ""; capabilities = "chat" ∷ []; tags = tags };
  call = λ task kwargs now. (returned 7, 5);
}

abbrev registry : ProviderRegistry ℕ
registry = record {
  providers = ("a", provider "a" []) ∷ ("b", provider "b" ("fast" ∷ [])) ∷ [];
  health = [];
}

both_found : find (some "chat") (some "fast") registry ≡ (provider "b" ("fast" ∷ [])).info ∷ []
unfolding find values has_capability has_tag
both_found = refl
