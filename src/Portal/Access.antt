-- ===== src/Portal/Access.antt =====
-- Who may act through the portal.
-- A request may act: no token is configured, or it presents that token.
use autoscaler.Common.{Bool-cases, [], ap, arith, false, inl, inr, refl, ℕ, ◌∷◌, ◌≡◌, ◌⊎◌}
use autoscaler.Portal.{PortalRequest, Reply, auth, presented, refused}
use autoscaler.Text.{Bytes, bytes_eq, codes}
use autoscaler.Text.Equality.{bytes_eq_refl, eq_of_bytes_eq}
use autoscaler.World.{M, Machine}

abbrev pub MayAct : Bytes → PortalRequest → Type 0
MayAct token r = (token ≡ []) ⊎ (presented r ≡ token)

refused_lem :
    (c : ℕ) (token : Bytes) (r : PortalRequest)
    → bytes_eq (presented r) (c ∷ token) ≡ false
    → ¬ MayAct (c ∷ token) r
refused_lem c token r other (inl empty) = cc
refused_lem c token r other (inr same) =
    cc (other, ap (λ s. bytes_eq s (c ∷ token)) same, bytes_eq_refl (c ∷ token))

-- A request that may act gets what the handler does; any other is answered by 401, and changes
-- nothing.
pub auth_lem :
    (token : Bytes) (handler : PortalRequest → M Reply) (r : PortalRequest) (m : Machine)
    → (MayAct token r × (auth token handler r m ≡ handler r m))
      ⊎ ((¬ MayAct token r) × (auth token handler r m ≡ (refused 401 (codes "unauthorized"), m)))
unfolding auth
auth_lem [] handler r m = inl (inl refl, refl)
auth_lem (c ∷ token) handler r m = elim (Bool-cases (bytes_eq (presented r) (c ∷ token))) [
  | inl same ↦ inl (inr (eq_of_bytes_eq (presented r) (c ∷ token) same), ground (arith, same))
  | inr other ↦ inr (refused_lem c token r other, ground (arith, other))
]
