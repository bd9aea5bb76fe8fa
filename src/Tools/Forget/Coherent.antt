-- ===== src/Tools/Forget/Coherent.antt =====
-- The deltas of pkg/mcp/tools/forget.go are right about the table.
use remindb.Prelude.{
  ◌≡◌, refl, sym, ap, subst, none, some, List, [], ◌∷◌, ◌++◌, map, arith, Bytes, str_dec, All,
  All-append, All-map,
}
use remindb.Prelude.Assoc.{lookup}
use remindb.Prelude.Result.{ok}
use remindb.Parser.Ast.{Trees}
use remindb.Diff.{Delta}
use remindb.Diff.Distinct.{IsMap}
use remindb.Store.Rows.{Node, Table}
use remindb.Store.Removal.{DeleteMode, strict, cascade, reparent, get_children}
use remindb.Emitter.Core.{Keyed}
use remindb.Emitter.Records.{Coherent}
use remindb.Tools.Forget.{rem_delta, kept_delta, get_descendants, build_forget_deltas}

-- The node is a row of the table, under its id.
abbrev Row : Table → Node → Type 0
Row t n = lookup n.id t ≡ some n

Row-more : (k : Bytes) (x n : Node) (t : Table) → lookup k t ≡ none → Row t n → Row ((k, x) ∷ t) n
unfolding lookup
Row-more k x n t fresh r = elim (str_dec n.id k) [
  | yes e ↦ absurd (ground (arith, ap (λ q. lookup q t) (sym e), fresh, r))
  | no e ↦ ground (arith, e, r)
]

Keyed-rest : (k : Bytes) (x : Node) (t : Table) → lookup k t ≡ none → Keyed ((k, x) ∷ t) → Keyed t
unfolding lookup
Keyed-rest k x t fresh h q n e = elim (str_dec q k) [
  | yes same ↦ absurd (ground (arith, ap (λ p. lookup p t) same, fresh, e))
  | no differs ↦ h q n (ground (arith, e, differs))
]

rows-Row : (t : Table) → Keyed t → IsMap t → All (λ p. Row t p.1) t
unfolding lookup
rows-Row [] h m = tt
rows-Row ((k, x) ∷ t) h m =
    let id : x.id ≡ k = h k x (ground arith) in
    let here : Row ((k, x) ∷ t) x = ground (arith, id) in
    (here, All-map (λ p r. Row-more k x p.1 t m.0 r) t (rows-Row t (Keyed-rest k x t m.0 h) m.1))

get_children-All :
    (P : Node → Type 0) (id : Bytes) (t : Table) → All (λ p. P p.1) t → All P (get_children id t)
unfolding get_children
get_children-All P id [] h = tt
get_children-All P id ((k, n) ∷ t) h =
    let rest = get_children-All P id t h.1 in ground (arith, rest, h.0)

get_descendants-All :
    (P : Node → Type 0) (id : Bytes) (all t : Table)
    → All (λ p. P p.1) t
    → All P (get_descendants id all t)
unfolding get_descendants
get_descendants-All P id all [] h = tt
get_descendants-All P id all ((k, n) ∷ t) h =
    let rest = get_descendants-All P id all t h.1 in ground (arith, rest, h.0)

map-All :
    (f : Node → Delta) (P : Node → Type 0) (Q : Delta → Type 0)
    → ((n : Node) → P n → Q (f n))
    → (l : List Node) → All P l
    → All Q (map f l)
map-All f P Q g [] h = tt
map-All f P Q g (n ∷ l) h = (g n h.0, map-All f P Q g l h.1)

-- Whatever the mode, each delta that a forget hands to the emitter is about a row of the table, and
-- has the hash and the content of that row. The table is a map of its rows by their ids.
pub build_forget_deltas-Coherent :
    (t : Table) (target : Node) (mode : DeleteMode) (roots : Trees) (deltas : List Delta)
    → Keyed t
    → IsMap t
    → lookup target.id t ≡ some target
    → build_forget_deltas target (get_children target.id t) mode t ≡ ok (roots, deltas)
    → All (Coherent t) deltas
unfolding build_forget_deltas
build_forget_deltas-Coherent t target strict roots deltas h m e r =
    let same : rem_delta target ∷ [] ≡ deltas = ground (arith, r) in
    subst (All (Coherent t)) same ((target, e, refl, refl), tt)
build_forget_deltas-Coherent t target cascade roots deltas h m e r =
    let same : rem_delta target ∷ map rem_delta (get_descendants target.id t t) ≡ deltas =
      ground (arith, r) in
    subst (All (Coherent t)) same (
      (target, e, refl, refl),
      map-All rem_delta (Row t) (Coherent t) (λ n row. (n, row, refl, refl))
          (get_descendants target.id t t)
          (get_descendants-All (Row t) target.id t t (rows-Row t h m)),
    )
build_forget_deltas-Coherent t target reparent roots deltas h m e r =
    let children = get_children target.id t in
    let same : map kept_delta children ++ rem_delta target ∷ [] ≡ deltas = ground (arith, r) in
    subst (All (Coherent t)) same (
      All-append (Coherent t) (map kept_delta children) (rem_delta target ∷ [])
        (map-All kept_delta (Row t) (Coherent t) (λ n row. (n, row, refl, refl)) children
          (get_children-All (Row t) target.id t (rows-Row t h m)))
        ((target, e, refl, refl), tt))
