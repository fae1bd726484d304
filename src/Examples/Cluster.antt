-- ===== src/Examples/Cluster.antt =====
-- tetrad's controllers over a toy API server, whose selectors are label sets.
use mathlib.Core.Path.{fun_ext}
use tetrapod.Base.{
  ◌≡◌, ◌≢◌, refl, true, false, [], ◌∷◌, Option, none, some, arith, elem, if◌then◌else◌, is_yes,
}
use tetrapod.Base.Bytes.{Bytes, Bytes-discrete}
use tetrapod.Controlplane.CidrClaim.{unknown, no_message}
use tetrapod.Tetrad.Labels.{Labels, node_type_for_node}
use tetrapod.Tetrad.Api.{Api, Object, Template, kept}
use tetrapod.Tetrad.Claimer.{Outcome, mutate, reconcile_claimer, upserted, told}
use tetrapod.Tetrad.Claimer.Settles.{Wears, reconcile_claimer_settles}

abbrev pub Server : Type 0
Server = Bytes → Option (Object Labels)

abbrev pub empty_object : Bytes → Object Labels
empty_object n = record {
  labels = [];
  owners = [];
  claim = record {
    name = n;
    generation = 0;
    selector = [];
    size_bit = 0;
    status = record {
      observed_generation = 0;
      state = unknown;
      message = no_message;
      cidr_block_name = [];
      cidr = [];
      size_bit = 0;
    };
  };
}

abbrev pub or_new : Bytes → Option (Object Labels) → Object Labels
or_new n none = empty_object n
or_new n (some o) = o

abbrev pub put : Bytes → Object Labels → Server → Server
put n o s = λ k. if is_yes (Bytes-discrete k n) then some o else s k

abbrev pub write : Bytes → Server → Option (Object Labels) → Option (Object Labels × Server)
write n s none = none
write n s (some m) = some (m, put n m s)

abbrev pub owned_by : Bytes → Object Labels → Option (Object Labels)
owned_by nd o = some (record o { owners = nd ∷ [] })

abbrev pub toy_template : Template Labels
toy_template = record { selector = []; size_bit = 4 }

pub put_same : (n : Bytes) (o : Object Labels) (s : Server) → s n ≡ some o → put n o s ≡ s
put_same n o s h = fun_ext (λ k. ground arith)

abbrev pub toy_api : Api Labels
toy_api = record {
  Server = Server;
  get = λ n s. s n;
  template = λ t s. some toy_template;
  self_node = λ s. some (7 ∷ []);
  found = λ n s. or_new n (s n);
  create_or_update = λ n f s. write n s (f (or_new n (s n)));
  own = owned_by;
  delete_all_of = λ l s k. kept l (s k);
  get-found = λ n s o h. rw h refl;
  upsert = λ n f s m h. (
    m,
    put n m s,
    rw h refl,
    refl,
    refl,
    refl,
    refl,
    ground arith,
    λ k d. ground arith,
    λ t. refl,
    refl,
  );
  upsert_same = λ n f s o h g. ground (arith, put_same n o s h);
  own_keeps = λ nd o o' h. ground arith;
  own_again = λ nd o o' p h e. ground arith;
  get-delete_all_of = λ l n s. refl;
}

abbrev pub cluster : Bytes
cluster = 1 ∷ []

abbrev pub node : Bytes
node = 2 ∷ []

abbrev pub template : Bytes
template = 5 ∷ []

abbrev pub nothing : Server
nothing = λ k. none

abbrev named : Bytes → Bytes
named t = 3 ∷ t

abbrev node_labels : Bytes → Labels
node_labels = node_type_for_node cluster node

abbrev written : Object Labels
written = record {
  labels = node_labels template;
  owners = (7 ∷ []) ∷ [];
  claim = record (empty_object (named template)).claim { selector = []; size_bit = 4 };
}

written_by_mutate :
    mutate toy_api node_labels (some (7 ∷ [])) toy_template template (empty_object (named template))
    ≡ some written
unfolding mutate
written_by_mutate = refl

abbrev claimer : Bytes → Server → Outcome toy_api
claimer = reconcile_claimer toy_api node_labels named (template ∷ []) true (λ c. true)

template_listed : elem Bytes-discrete template (template ∷ []) ≡ true
unfolding Bytes-discrete
template_listed = refl

reconcile_claimer_settles_example :
    (o : Object Labels) × (s' : Server) × (claimer template nothing
      ≡ upserted o s' (told true o.claim))
    × (s' (named template) ≡ some o)
    × Wears (node_labels template) toy_template o
    × ((k : Bytes) → k ≢ named template → s' k ≡ nothing k)
    × (claimer template s' ≡ upserted o s' (told true o.claim))
reconcile_claimer_settles_example =
    reconcile_claimer_settles toy_api node_labels named (template ∷ []) true template nothing
      toy_template written template_listed refl written_by_mutate

-- A claim of a template that is no longer used.
abbrev old_template : Bytes
old_template = 6 ∷ []

abbrev old_server : Server
old_server = put (named old_template) (record written { labels = node_labels old_template }) nothing

old_unlisted : elem Bytes-discrete old_template (template ∷ []) ≡ false
unfolding Bytes-discrete
old_unlisted = refl

old_named : old_template ≢ []
old_named = λ e. absurd (cc)
