-- ===== src/Relations/Examples.antt =====
-- pkg/relations at a page with two links.
use remindb.Prelude.{◌≡◌, refl, true, false, none, List, [], ◌∷◌, Bytes, codes, str_dec, All}
use remindb.Parser.Ast.{ContextNode, WikilinkRef}
use remindb.Prelude.Assoc.{lookup}
use remindb.Prelude.Result.{ok}
use remindb.Store.Rows.{Node, Table, default_temperature}
use remindb.Store.Relations.{Graph, find_heading_by_label, label_key}
use remindb.Emitter.{node_from_context}
use remindb.Relations.{run, resolve}
use remindb.Relations.Retry.{unresolved, run-Settled}
use remindb.Diff.{seen}
use remindb.Relations.Settled.{AllSettled}

abbrev link : Bytes → WikilinkRef
link label = record { label = label; source_qual = []; id_hint = []; weight = 1 }

abbrev page : Bytes → List WikilinkRef → ContextNode
page id refs = record {
  wikilink_refs = refs;
  id = id;
  parent_id = [];
  source_file = codes "a.md";
  label = id;
  content = id;
  content_hash = id;
  format = codes "plain";
  temperature = none;
  depth = 1;
  token_count = 1;
  seed_pinned = false;
  node_type = codes "heading";
}

abbrev row : Bytes → Node
row id = record (node_from_context (page id [])) { temperature = default_temperature }

abbrev two_rows : Table
two_rows = (codes "p", row (codes "p")) ∷ (codes "q", row (codes "q")) ∷ []

-- The first link has a target, whose label differs in case; the second one waits.
abbrev linked_page : ContextNode
linked_page = page (codes "p") (link (codes " Q") ∷ link (codes "later") ∷ [])

abbrev no_edges : Graph
no_edges = record { relations = []; pending = []; next_relation = 1; next_pending = 1 }

resolve_label : resolve two_rows (link (codes " Q")) ≡ codes "q"
unfolding resolve str_dec find_heading_by_label node_from_context label_key
resolve_label = refl

run-Settled_example :
    (g : Graph) × (run 7 two_rows (linked_page ∷ []) no_edges ≡ ok g)
    × All (λ (n : ContextNode). AllSettled two_rows g n.id n.wikilink_refs) (linked_page ∷ [])
    × All (λ p. unresolved two_rows p ≡ true) g.pending
unfolding lookup str_dec node_from_context seen
run-Settled_example =
    run-Settled 7 two_rows (linked_page ∷ []) no_edges (refl, (refl, tt)) (refl, tt) (refl, tt)
      (record { sources = tt; given = tt; distinct = tt })
