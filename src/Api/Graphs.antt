-- ===== src/Api/Graphs.antt =====
-- How `post_workflows` of src/api/api.cpp reads its body.
use distributed_job_engine.Prelude.{
  ◌||◌, Option, none, some, List, [], ◌∷◌, ◌++◌, if◌then◌else◌, is_nil, Text, text,
}
use distributed_job_engine.Json.{Json, Items, array, nil, cons, find, get_string}
use distributed_job_engine.Job.{SubmitRequest}
use distributed_job_engine.Engine.Workflows.{NodeSpec}
use distributed_job_engine.Api.{Context, Step, replies, goes, ◌>>=◌, is_object, error_json}
use distributed_job_engine.Api.Submission.{Read, fails, reads, read_submit_request}

abbrev pub bad_request : {A : Type 0} → Context → Text → Step A
bad_request ctx message = replies (error_json ctx 400 message)

abbrev pub node_of : Context → Text → Read SubmitRequest → Step NodeSpec
node_of ctx name (fails message) = bad_request ctx (text "node '" ++ name ++ text "': " ++ message)
node_of ctx name (reads request) = goes (record { name = name; request = request })

unfoldable pub read_node : Context → Json → Step NodeSpec
unfolding error_json read_submit_request get_string text
read_node ctx n =
    let name = get_string n (text "name") [] in
    if is_object n
    then if is_nil name
      then bad_request ctx (text "every node needs a non-empty 'name'")
      else node_of ctx name (read_submit_request ctx n)
    else bad_request ctx (text "every node must be an object")

unfoldable pub read_nodes : Context → Items → Step (List NodeSpec)
unfolding read_node
read_nodes ctx nil = goes []
read_nodes ctx (cons n rest) =
    read_node ctx n >>= λ spec. (read_nodes ctx rest >>= λ specs. goes (spec ∷ specs))

unfoldable pub read_edge : Context → Json → Step (Text × Text)
unfolding error_json get_string text
read_edge ctx e =
    let from = get_string e (text "from") [] in
    let to = get_string e (text "to") [] in
    if is_object e
    then if is_nil from || is_nil to
      then bad_request ctx (text "every edge needs non-empty 'from' and 'to'")
      else goes (from, to)
    else bad_request ctx (text "every edge must be an object")

unfoldable pub read_edges : Context → Items → Step (List (Text × Text))
unfolding read_edge
read_edges ctx nil = goes []
read_edges ctx (cons e rest) =
    read_edge ctx e >>= λ edge. (read_edges ctx rest >>= λ edges. goes (edge ∷ edges))

-- The field `nodes`: an array, and not an empty one.
abbrev pub node_items : Context → Option Json → Step Items
node_items ctx (some (array (cons n rest))) = goes (cons n rest)
node_items ctx _ = bad_request ctx (text "field 'nodes' must be a non-empty array")

-- The field `edges`: an array where there is one.
abbrev pub edge_items : Context → Option Json → Step Items
edge_items ctx none = goes nil
edge_items ctx (some (array items)) = goes items
edge_items ctx _ = bad_request ctx (text "field 'edges' must be an array")

-- What the body of `POST /workflows` says: the nodes before the edges.
unfoldable pub read_workflow : Context → Json → Step (List NodeSpec × List (Text × Text))
unfolding read_nodes read_edges find error_json text
read_workflow ctx body = node_items ctx (find body (text "nodes")) >>= λ nodes.
    (read_nodes ctx nodes >>= λ specs.
    (edge_items ctx (find body (text "edges")) >>= λ items.
    (read_edges ctx items >>= λ edges. goes (specs, edges))))
