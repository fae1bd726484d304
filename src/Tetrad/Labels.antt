-- ===== src/Tetrad/Labels.antt =====
-- tetrad/pkg/labels/labels.go: the labels by which a node finds its claims. A label key is a constructor, so
-- two different keys of the source stay apart; `split` is strings.Split at commas, and `trim` is strings.TrimSpace.
use tetrapod.Base.{
  ◌≡◌, Bool, true, false, List, [], ◌∷◌, Option, none, some, map, is_yes, if◌then◌else◌, arith,
}
use tetrapod.Base.Bytes.{Bytes, Bytes-discrete}
use tetrapod.Pkg.Syncmap.{Map, load, store}
use tetrapod.Pkg.Uniq.{uniq}

pub data Key : Type 0 where
  cluster : Key
  node : Key
  type : Key
  namespace : Key
  name : Key
  template_name : Key

unfoldable pub Key-discrete : Discrete Key
Key-discrete = hlevel

abbrev pub Labels : Type 0
Labels = Map Key Bytes

abbrev pub is_empty : Bytes → Bool
is_empty [] = true
is_empty (c ∷ cs) = false

unfoldable pub for_node : Bytes → Bytes → Labels
for_node cluster_name node_name = (cluster, cluster_name) ∷ (node, node_name) ∷ []

-- What NodeTypeForNode, PodCIDRTypeForNode and ExtraPodCIDRTypeForNodeAll share.
unfoldable pub typed_for_node : Bytes → Bytes → Bytes → Bytes → Labels
unfolding for_node store Key-discrete
typed_for_node kind cluster_name node_name template =
    let labels = store Key-discrete type kind (for_node cluster_name node_name) in
    if is_empty template then labels else store Key-discrete template_name template labels

-- "node", "pod-cidr" and "extra-pod-cidr".
abbrev pub node_kind : Bytes
node_kind = 110 ∷ 111 ∷ 100 ∷ 101 ∷ []

abbrev pub pod_cidr_kind : Bytes
pod_cidr_kind = 112 ∷ 111 ∷ 100 ∷ 45 ∷ 99 ∷ 105 ∷ 100 ∷ 114 ∷ []

abbrev pub extra_pod_cidr_kind : Bytes
extra_pod_cidr_kind = 101 ∷ 120 ∷ 116 ∷ 114 ∷ 97 ∷ 45 ∷ pod_cidr_kind

unfoldable pub node_type_for_node : Bytes → Bytes → Bytes → Labels
unfolding typed_for_node
node_type_for_node = typed_for_node node_kind

unfoldable pub pod_cidr_type_for_node : Bytes → Bytes → Bytes → Labels
unfolding typed_for_node
pod_cidr_type_for_node = typed_for_node pod_cidr_kind

unfoldable pub extra_pod_cidr_type_for_node_all : Bytes → Bytes → Bytes → Labels
unfolding typed_for_node
extra_pod_cidr_type_for_node_all = typed_for_node extra_pod_cidr_kind

unfoldable pub extra_pod_cidr_type_for_node : Bytes → Bytes → Bytes → Bytes → Bytes → Labels
unfolding extra_pod_cidr_type_for_node_all store Key-discrete
extra_pod_cidr_type_for_node cluster_name node_name pod_namespace pod_name template =
    store Key-discrete name pod_name (
      store Key-discrete namespace pod_namespace
        (extra_pod_cidr_type_for_node_all cluster_name node_name template))

-- A Go map gives the empty string for a key that it has not.
abbrev pub or_empty : Option Bytes → Bytes
or_empty none = []
or_empty (some v) = v

unfoldable pub namespaced_name_from_extra_pod_cidr : Labels → Bytes × Bytes
unfolding load Key-discrete
namespaced_name_from_extra_pod_cidr labels =
    (or_empty (load Key-discrete namespace labels), or_empty (load Key-discrete name labels))

-- SelectorFromSet: every label of the selector stands among the object's.
unfoldable pub selects : Labels → Labels → Bool
unfolding load Key-discrete Bytes-discrete
selects [] labels = true
selects ((k, v) ∷ rest) labels = elim (load Key-discrete k labels) [
  | none ↦ false
  | some w ↦ if is_yes (Bytes-discrete w v) then selects rest labels else false
]

module _ (split : Bytes → List Bytes) (trim : Bytes → Bytes) where
  -- nil and an empty slice are one list.
  unfoldable pub extra_pod_cidr_template_names : Bytes → List Bytes
  unfolding uniq Bytes-discrete
  extra_pod_cidr_template_names annotation =
      if is_empty annotation then [] else uniq Bytes-discrete (map trim (split annotation))

-- The labels of a pod's claim, for any template: the selector that deletes the pod's claims matches
-- them, the selector of the node's extra claims does, and the pod's name is read back from them. The node's
-- other two selectors do not match them.
pub extra_pod_cidr_labels_found :
    (cluster_name node_name pod_namespace pod_name template : Bytes)
    → let labels =
        extra_pod_cidr_type_for_node cluster_name node_name pod_namespace pod_name template in
      (selects
          (extra_pod_cidr_type_for_node cluster_name node_name pod_namespace pod_name [])
          labels
        ≡ true)
      × (selects (extra_pod_cidr_type_for_node_all cluster_name node_name []) labels ≡ true)
      × (namespaced_name_from_extra_pod_cidr labels ≡ (pod_namespace, pod_name))
      × (selects (pod_cidr_type_for_node cluster_name node_name []) labels ≡ false)
      × (selects (node_type_for_node cluster_name node_name []) labels ≡ false)
unfolding extra_pod_cidr_type_for_node extra_pod_cidr_type_for_node_all typed_for_node for_node
    pod_cidr_type_for_node node_type_for_node store load Key-discrete selects
    namespaced_name_from_extra_pod_cidr Bytes-discrete
extra_pod_cidr_labels_found cluster_name node_name pod_namespace pod_name [] = ground arith
extra_pod_cidr_labels_found cluster_name node_name pod_namespace pod_name (c ∷ cs) = ground arith
