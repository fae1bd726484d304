-- ===== src/Examples/Pods.antt =====
-- The claims of a pod: written, deleted, and handed to the CNI plugin.
use tetrapod.Base.{◌≡◌, ◌≢◌, refl, true, false, List, [], ◌∷◌, Option, none, some, In, elem}
use tetrapod.Base.Bytes.{Bytes, Bytes-discrete}
use tetrapod.Pkg.Uniq.{uniq}
use tetrapod.Pkg.Syncmap.{from_slice, add_all, store, delete}
use tetrapod.Controlplane.CidrClaim.{ready}
use tetrapod.Tetrad.Labels.{Labels, pod_cidr_type_for_node, extra_pod_cidr_template_names}
use tetrapod.Tetrad.Names.{claim_name}
use tetrapod.Tetrad.Api.{Object, Template}
use tetrapod.Tetrad.Claimer.{mutate}
use tetrapod.Tetrad.CniServer.{get_pod_cidrs, get_extra_pod_cidrs}
use tetrapod.Tetrad.CniServer.Ready.{Serves, AllUsable}
use tetrapod.Tetrad.CniServer.Served.{OfferedAmong, get_pod_cidrs_served}
use tetrapod.Tetrad.CniServer.Extra.{get_extra_pod_cidrs_served}
use tetrapod.Tetrad.ExtraPods.{annotated, not_found, extra_labels, reconcile_pod, cidr_claim_event}
use tetrapod.Tetrad.ExtraPods.Written.{Apart, Written, reconcile_pod-Written}
use tetrapod.Tetrad.ExtraPods.Deleted.{reconcile_pod_deletes}
use tetrapod.Examples.Cluster.{
  Server, empty_object, cluster, node, template, toy_api, toy_template, nothing, put,
}

abbrev pod_claim : Object Labels
pod_claim =
    let o = empty_object (4 ∷ []) in
    let st = record o.claim.status { state = ready; cidr = 21 ∷ [] } in
    record o {
      labels = pod_cidr_type_for_node cluster node template;
      claim = record o.claim { status = st };
    }

abbrev listings : List (Option (List (Object Labels)))
listings = none ∷ some (pod_claim ∷ []) ∷ []

get_pod_cidrs_served_example :
    (get_pod_cidrs (template ∷ []) listings ≡ some (pod_claim ∷ [])
      → In (some (pod_claim ∷ [])) listings
        × AllUsable (pod_claim ∷ [])
        × ((t : Bytes) → elem Bytes-discrete t (template ∷ []) ≡ true → OfferedAmong t listings))
    × (In (some (pod_claim ∷ [])) listings
        → Serves true (template ∷ []) (pod_claim ∷ [])
        → (answer : List (Object Labels)) × (get_pod_cidrs (template ∷ []) listings ≡ some answer))
get_pod_cidrs_served_example = get_pod_cidrs_served (template ∷ []) listings (pod_claim ∷ [])

pod_is_served : get_pod_cidrs (template ∷ []) listings ≡ some (pod_claim ∷ [])
unfolding get_pod_cidrs from_slice add_all store delete Bytes-discrete pod_cidr_type_for_node
pod_is_served = refl

-- Every text has one part, which is trimmed as it is.
abbrev toy_split : Bytes → List Bytes
toy_split t = t ∷ []

abbrev toy_trim : Bytes → Bytes
toy_trim t = t

abbrev answers : List (Option Bytes × Option (List (Object Labels)))
answers = (none, none) ∷ (some template, some (pod_claim ∷ [])) ∷ []

get_extra_pod_cidrs_served_example :
    (get_extra_pod_cidrs toy_split toy_trim true answers ≡ some (pod_claim ∷ [])
      → (read : Bytes) × In (some read, some (pod_claim ∷ [])) answers
        × Serves false (extra_pod_cidr_template_names toy_split toy_trim read) (pod_claim ∷ []))
    × (In (some template, some (pod_claim ∷ [])) answers
        → Serves false (extra_pod_cidr_template_names toy_split toy_trim template) (pod_claim ∷ [])
        → (answer : List (Object Labels)) × (get_extra_pod_cidrs toy_split toy_trim true answers
            ≡ some answer))
get_extra_pod_cidrs_served_example =
    get_extra_pod_cidrs_served toy_split toy_trim answers template (pod_claim ∷ [])

abbrev sum : Bytes → Bytes
sum t = 8 ∷ 9 ∷ t

abbrev pod_namespace : Bytes
pod_namespace = 60 ∷ []

abbrev pod_name : Bytes
pod_name = 61 ∷ []

abbrev same_template : Bytes → Template Labels
same_template t = toy_template

only_template :
    (t : Bytes)
    → In t (extra_pod_cidr_template_names toy_split toy_trim template)
    → (toy_trim t ≡ t) × (some toy_template ≡ some toy_template)
only_template t i = (refl, refl)

can_be_owned :
    (t : Bytes) (o : Object Labels)
    → (m : Object Labels) × (mutate toy_api
          (extra_labels cluster node pod_namespace pod_name)
          (some (7 ∷ []))
          toy_template
          t
          o
        ≡ some m)
unfolding mutate
can_be_owned t o = (_, refl)

claim_name-Apart :
    Apart
      (claim_name sum cluster node pod_namespace pod_name)
      (extra_pod_cidr_template_names toy_split toy_trim template)
unfolding extra_pod_cidr_template_names uniq Bytes-discrete
claim_name-Apart = ((λ u i. absurd i), tt)

reconcile_pod-Written_example :
    let ts = extra_pod_cidr_template_names toy_split toy_trim template in
    let name_of = claim_name sum cluster node pod_namespace pod_name in
    (s' : Server) × (reconcile_pod cluster node toy_api sum toy_split toy_trim
        (λ t c. true)
        pod_namespace
        pod_name
        true
        true
        (annotated template)
        nothing
      ≡ (s', true))
    × ((t : Bytes)
        → In t ts
        → Written toy_api cluster node sum toy_split toy_trim pod_namespace pod_name s'
            same_template t)
    × ((k : Bytes) → ((t : Bytes) → In t ts → name_of t ≢ k) → s' k ≡ nothing k)
reconcile_pod-Written_example =
    reconcile_pod-Written toy_api cluster node sum toy_split toy_trim pod_namespace pod_name
      template same_template nothing only_template can_be_owned claim_name-Apart

abbrev pod_server : Server
pod_server =
    put (70 ∷ [])
      (record pod_claim { labels = extra_labels cluster node pod_namespace pod_name template })
      nothing

reconcile_pod_deletes_example :
    (s' : Server) × (reconcile_pod cluster node toy_api sum toy_split toy_trim
        (λ t c. true)
        pod_namespace
        pod_name
        true
        true
        not_found
        pod_server
      ≡ (s', true))
    × ((n t : Bytes) (o : Object Labels)
        → s' n ≡ some o
        → o.labels ≢ extra_labels cluster node pod_namespace pod_name t)
    × ((n other_namespace other_name t : Bytes) (o : Object Labels)
        → pod_server n ≡ some o
        → o.labels ≡ extra_labels cluster node other_namespace other_name t
        → ((other_namespace ≡ pod_namespace) × (other_name ≡ pod_name) → ⊥)
        → s' n ≡ some o)
    × ((t : Bytes)
        → cidr_claim_event cluster node (extra_labels cluster node pod_namespace pod_name t)
          ≡ some (pod_namespace, pod_name))
reconcile_pod_deletes_example =
    reconcile_pod_deletes toy_api cluster node sum toy_split toy_trim pod_namespace pod_name
      pod_server
