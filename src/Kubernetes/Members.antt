-- ===== src/Kubernetes/Members.antt =====
-- The nodes of the cluster: one for each item of the answer, and their order.
use node_debug_dashboard.Prelude.{◌≡◌, Bool, true, false, List, [], ◌∷◌, All, lit, text_eq}
use node_debug_dashboard.Json.{Json}
use node_debug_dashboard.Models.Kubernetes.{ClusterNode}
use node_debug_dashboard.Kubernetes.Cluster.{text_lt}

abbrev pub is_control_plane : ClusterNode → Bool
is_control_plane n = text_eq n.role (lit "control-plane")

-- What a later node has to be: not of the control plane if the earlier one is not, and among nodes
-- that are alike in this, of a name that is not smaller.
abbrev pub Follows : ClusterNode → ClusterNode → Type 0
Follows a b =
    (is_control_plane b ≡ true → is_control_plane a ≡ true)
    × (is_control_plane a ≡ is_control_plane b → text_lt b.name a.name ≡ false)

abbrev pub InOrder : List ClusterNode → Type 0
InOrder [] = Unit
InOrder (a ∷ rest) = All (Follows a) rest × InOrder rest
