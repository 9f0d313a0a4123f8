-- ===== src/Verifier/Audit/Defaults.antt =====
-- The default chain of src/primal_ai/verifier/_core.py, which is resolved when it is configured.
use primal_core.Base.{
  String, ◌≡◌, refl, none, List, [], ◌∷◌, ◌++◌, map, raised, exception, ◌⊎◌, inl, inr,
}
use primal_core.Base.Dict.{get}
use primal_core.Verifier.Audit.{
  Layer, Verifiers, resolve_layer, resolve_each, resolve_layers, set_default_layers,
}

module _ {S : Type 0} where
  resolve_layer_unknown :
      (name : String) (vs : Verifiers S)
      → get name vs.registry ≡ none
      → resolve_layer name vs ≡ (raised (exception "ValueError" name), vs)
  unfolding resolve_layer
  resolve_layer_unknown name vs absent = rw (absent, resolve_layer) refl

  resolve_each_unknown :
      (layers : List (Layer S)) (name : String) (rest : List (String ⊎ Layer S)) (vs : Verifiers S)
      → get name vs.registry ≡ none
      → resolve_each (map inr layers ++ inl name ∷ rest) vs
        ≡ (raised (exception "ValueError" name), vs)
  unfolding resolve_each
  resolve_each_unknown [] name rest vs absent =
      rw (resolve_layer_unknown name vs absent, resolve_each) refl
  resolve_each_unknown (layer ∷ layers) name rest vs absent =
      rw (resolve_each_unknown layers name rest vs absent, resolve_each) refl

  -- A chain that names, after layers given as objects, a layer that is not registered yet is refused
  -- at once with a `ValueError`, and the default chain and the registry stay as they were.
  pub set_default_layers_unknown :
      (layers : List (Layer S)) (name : String) (rest : List (String ⊎ Layer S)) (vs : Verifiers S)
      → get name vs.registry ≡ none
      → set_default_layers (map inr layers ++ inl name ∷ rest) vs
        ≡ (raised (exception "ValueError" name), vs)
  unfolding set_default_layers resolve_layers
  set_default_layers_unknown layers name rest vs absent =
      rw (resolve_each_unknown layers name rest vs absent, set_default_layers, resolve_layers) refl
