-- ===== src/Coverage/Ids/Canonical.antt =====
-- internal/coverage/ids.go: the IDs that the grammar has a text for.
use docker_net_dhcp_lab.Coverage.Cutting.{Lacks}
use docker_net_dhcp_lab.Coverage.Ids.{
  single, refused, out_of_mode, alias, pair, env, Term, VariantId, name_ok, is_refused, profile_ok,
}
use docker_net_dhcp_lab.Coverage.Ids.Terms.{IsWritable}
use docker_net_dhcp_lab.Prelude.{◌≡◌, ◌≢◌, ◌⊎◌, true, false, List, [], ◌∷◌, All, Text}

-- A mode that an ID can carry: no `@` in it, and no `!` in front.
pub record IsMode (m : Text) : Type 0 where
  pub no_at : Lacks b'@' m
  pub no_bang : is_refused m ≡ false

abbrev pub IsProfile : Text → Type 0
IsProfile p = (p ≡ b'*' ∷ []) ⊎ (profile_ok p ≡ true)

-- The IDs of the grammar, one form for each kind.
pub data IsCanonical : VariantId → Type 0 where
  single_id :
      (t : Term) (m : Text)
      → IsWritable t
      → is_refused t.val ≡ false
      → IsMode m
      → IsCanonical (record { kind = single; a = t ∷ []; b = []; mode = m; profile = [] })
  refused_id :
      (t : Term)
      → IsWritable t
      → is_refused t.val ≡ true
      → IsCanonical (record { kind = refused; a = t ∷ []; b = []; mode = []; profile = [] })
  out_of_mode_id :
      (opt m : Text)
      → name_ok opt ≡ true
      → m ≢ []
      → IsCanonical (record {
        kind = out_of_mode;
        a = (record { opt = opt; val = [] }) ∷ [];
        b = [];
        mode = m;
        profile = [];
      })
  alias_id :
      (t u : Term) (ts us : List Term) (m : Text)
      → All IsWritable (t ∷ ts)
      → All IsWritable (u ∷ us)
      → IsMode m
      → IsCanonical (record { kind = alias; a = t ∷ ts; b = u ∷ us; mode = m; profile = [] })
  pair_id :
      (t u : Term) (m : Text)
      → All IsWritable (t ∷ u ∷ [])
      → IsMode m
      → m ≢ []
      → IsCanonical (record { kind = pair; a = t ∷ u ∷ []; b = []; mode = m; profile = [] })
  env_id :
      (t : Term) (m p : Text)
      → IsWritable t
      → IsMode m
      → m ≢ []
      → IsProfile p
      → IsCanonical (record { kind = env; a = t ∷ []; b = []; mode = m; profile = p })
