-- ===== src/Supervisor/Maps.antt =====
-- The maps of the supervisor: what a lookup finds after each change of a map.
use listener_go.Prelude.{
  ℤ, eq_ℤ, eq_ℤ_iff, Text, ◌≡◌, none, some, List, [], ◌∷◌, if◌then◌else◌, if-cases, arith,
}
use listener_go.Database.Chains.{ChainInfo}
use listener_go.Supervisor.{
  ChainRunner, lookup_chain, delete_chain, put_chain, active_chains, still_active, keep_active,
}

module _ {V : Type 0} where
  -- No chain is there twice.
  abbrev pub Separate : List (ℤ × V) → Type 0
  Separate [] = Unit
  Separate ((c, v) ∷ m) = (lookup_chain c m ≡ none) × Separate m

  pub lookup-delete :
      (c c' : ℤ) (m : List (ℤ × V))
      → lookup_chain c (delete_chain c' m) ≡ (if eq_ℤ c' c then none else lookup_chain c m)
  unfolding lookup_chain delete_chain
  lookup-delete c c' [] = ground arith
  lookup-delete c c' ((d, v) ∷ m) =
      ground (arith, lookup-delete c c' m, eq_ℤ_iff d c', eq_ℤ_iff d c, eq_ℤ_iff c' c)

  pub lookup-put :
      (c c' : ℤ) (v : V) (m : List (ℤ × V))
      → lookup_chain c (put_chain c' v m) ≡ (if eq_ℤ c' c then some v else lookup_chain c m)
  unfolding lookup_chain put_chain
  lookup-put c c' v m = ground (arith, lookup-delete c c' m)

  pub delete-Separate : (c : ℤ) (m : List (ℤ × V)) → Separate m → Separate (delete_chain c m)
  unfolding delete_chain
  delete-Separate c [] h = tt
  delete-Separate c ((d, v) ∷ m) h =
      if-cases Separate (eq_ℤ d c) (λ same. delete-Separate c m h.1)
        (λ other. (ground (arith, lookup-delete d c m), delete-Separate c m h.1))

  pub put-Separate : (c : ℤ) (v : V) (m : List (ℤ × V)) → Separate m → Separate (put_chain c v m)
  unfolding put_chain
  put-Separate c v m h = (ground (arith, lookup-delete c c m, eq_ℤ_iff c c), delete-Separate c m h)

pub active_chains-Separate :
    (is : List ChainInfo) (m : List (ℤ × Text)) → Separate m → Separate (active_chains is m)
unfolding active_chains
active_chains-Separate [] m h = h
active_chains-Separate (i ∷ is) m h =
    active_chains-Separate is (put_chain i.chain_id i.token_config_hash m)
      (put-Separate i.chain_id i.token_config_hash m h)

pub lookup-keep_active :
    (c : ℤ) (active : List (ℤ × Text)) (m : List (ℤ × ChainRunner))
    → lookup_chain c (keep_active active m)
      ≡ (if still_active (lookup_chain c active) then lookup_chain c m else none)
unfolding lookup_chain keep_active
lookup-keep_active c active [] = ground arith
lookup-keep_active c active ((d, r) ∷ m) =
    ground (arith, lookup-keep_active c active m, eq_ℤ_iff d c)
