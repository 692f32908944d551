-- ===== src/Capabilities/Bindings.antt =====
-- `BindingRegistry` of src/agent_runtime/capabilities/providers.py.
pub use coresmos.Contracts.Capabilities.{BindingSetRef}
use coresmos.Prelude.{
  ℕ, ite, ◌≢◌, ◌+◌, ◌≤◌, ◌≡◌, ap, ◌∙◌, sym, Option, none, some, List, [], ◌∷◌, ◌++◌, map, Text,
  Text-discrete, codes, Dict, get, put, get-put, decimal, last_number, last_number-decimal, arith,
}
use coresmos.Errors.{Result, ok, raise, capability_error}

pub record BindingRegistry : Type 0 where
  pub versions : Dict Text (Dict Text Text)
  pub seq : ℕ

-- `f"bind-{seq}"`
unfoldable pub bind_version : ℕ → Text
bind_version n = codes "bind-" ++ decimal n

-- The reference, and the registry with the new table.
unfoldable pub publish : Dict Text Text → BindingRegistry → BindingSetRef × BindingRegistry
unfolding bind_version
publish table r =
    let version = bind_version (r.seq + 1) in
    (
      record { version = version },
      record { versions = put Text-discrete version table r.versions; seq = r.seq + 1 },
    )

abbrev pub table_of : BindingRegistry → BindingSetRef → Option (Dict Text Text)
table_of r ref = get Text-discrete ref.version r.versions

unfoldable pub resolve : BindingRegistry → BindingSetRef → Text → Result Text
resolve r ref name = elim (table_of r ref) [
  | none ↦ raise capability_error
  | some table ↦ elim (get Text-discrete name table) [
    | none ↦ raise capability_error
    | some key ↦ ok key
  ]
]

unfoldable pub names : BindingRegistry → BindingSetRef → List Text
names r ref = elim (table_of r ref) [
  | none ↦ []
  | some table ↦ map (λ (e : Text × Text). e.0) table
]

unfoldable pub mapping : BindingRegistry → BindingSetRef → Result (Dict Text Text)
mapping r ref = elim (table_of r ref) [ none ↦ raise capability_error | some table ↦ ok table ]

-- Every version was made by the counter.
pub record IsNumbered (r : BindingRegistry) : Type 0 where
  pub made :
      (ref : BindingSetRef) (table : Dict Text Text)
      → table_of r ref ≡ some table
      → (n : ℕ) × (ref.version ≡ bind_version n) × (n ≤ r.seq)

bind_version_injective : (m n : ℕ) → bind_version m ≡ bind_version n → m ≡ n
unfolding bind_version
bind_version_injective m n e =
    sym (last_number-decimal 0 m []) ∙ (ap read e ∙ last_number-decimal 0 n [])
  where
    skip : Text → Text
    skip (a ∷ b ∷ c ∷ d ∷ e ∷ rest) = rest
    skip t = t

    read : Text → ℕ
    read t = last_number 0 (58 ∷ skip t)

module _ (table : Dict Text Text) (r : BindingRegistry) (v : IsNumbered r) where
  new_version :
      (t : Dict Text Text) → get Text-discrete (bind_version (r.seq + 1)) r.versions ≢ some t
  new_version t e =
      let (n, same, small) = v.made (record { version = bind_version (r.seq + 1) }) t e in
      absurd (omega (arith, small, bind_version_injective (r.seq + 1) n same))

  -- Publishing makes a reference to the table, and every table that was published before is still
  -- found under its reference.
  pub publish-keeps :
      IsNumbered (publish table r).1
      × (table_of (publish table r).1 (publish table r).0 ≡ some table)
      × ((ref : BindingSetRef) (t : Dict Text Text)
          → table_of r ref ≡ some t
          → table_of (publish table r).1 ref ≡ some t)
  unfolding publish
  publish-keeps = (numbered, found, kept)
    where
      look :
          (w : Text)
          → get Text-discrete w (put Text-discrete (bind_version (r.seq + 1)) table r.versions)
            ≡ ite
                (Text-discrete (bind_version (r.seq + 1)) w)
                (some table)
                (get Text-discrete w r.versions)
      look w = get-put Text-discrete (bind_version (r.seq + 1)) w table r.versions

      found :
          get Text-discrete
            (bind_version (r.seq + 1))
            (put Text-discrete (bind_version (r.seq + 1)) table r.versions)
          ≡ some table
      found = ground (arith, look (bind_version (r.seq + 1)))

      kept :
          (ref : BindingSetRef) (t : Dict Text Text)
          → table_of r ref ≡ some t
          → get Text-discrete ref.version
              (put Text-discrete (bind_version (r.seq + 1)) table r.versions)
            ≡ some t
      kept ref t e = elim (Text-discrete (bind_version (r.seq + 1)) ref.version) [
        | yes p ↦ absurd (new_version t (rw p e))
        | no n ↦ ground (arith, look ref.version)
      ]

      numbered : IsNumbered (record {
        versions = put Text-discrete (bind_version (r.seq + 1)) table r.versions;
        seq = r.seq + 1;
      })
      numbered = record {
        made = λ ref t e. elim (Text-discrete (bind_version (r.seq + 1)) ref.version) [
          | yes p ↦ (r.seq + 1, sym p, omega arith)
          | no n ↦
              let (k, same, small) = v.made ref t (ground (arith, look ref.version)) in
              (k, same, omega (arith, small))
        ];
      }
