-- ===== src/BTree/Shape.antt =====
-- src/btree.c: `btree_stats` and `btree_free_pages`, the two walks over a whole tree.
use my_pl.Prelude.{
  ℕ, zero, suc, ◌+◌, Bool, true, false, not, List, [], ◌∷◌, Option, none, some, ltb, if◌then◌else◌,
  length,
}
use my_pl.Prelude.Int.{is_positive}
use my_pl.Pager.{Pager, free_page}
use my_pl.BTree.Node.{leaf, internal, node_load}
use my_pl.BTree.Insert.{BTree}

-- `free_pages_rec` over the children of a node; `free` is the recursion.
unfoldable free_children : (Pager → ℕ → Option Pager) → List ℕ → Pager → Option Pager
free_children free [] p = some p
free_children free (c ∷ cs) p = elim (if is_positive c then free p c else some p) [
  | none ↦ none
  | some q ↦ free_children free cs q
]

-- `none` stands for fuel that ran out.
unfoldable free_pages_rec : ℕ → Pager → ℕ → Option Pager
unfolding free_children
free_pages_rec zero p n = none
free_pages_rec (suc fuel) p n = elim (node_load p n) [
  | none ↦ some p
  | some (leaf es next) ↦ some (free_page p n)
  | some (internal cs ks) ↦ elim (free_children (free_pages_rec fuel) cs p) [
    | none ↦ none
    | some q ↦ some (free_page q n)
  ]
]

unfoldable btree_free_pages : ℕ → BTree → Option Pager
unfolding free_pages_rec
btree_free_pages fuel t =
    if not (is_positive t.root_page) then some t.pager else free_pages_rec fuel t.pager t.root_page

pub record BTreeStats : Type 0 where
  pub height : ℕ
  pub node_count : ℕ
  pub leaf_count : ℕ
  pub entry_count : ℕ

-- The result and `*out` of a walk; `none` stands for fuel that ran out.
abbrev Walk : Type 0
Walk = Option (Bool × BTreeStats)

abbrev visit_node : ℕ → BTreeStats → BTreeStats
visit_node depth s = record s {
  node_count = s.node_count + 1;
  height = if ltb s.height depth then depth else s.height;
}

-- `stats_rec` over the children of a node; `walk` is the recursion.
unfoldable stats_children : (ℕ → BTreeStats → Walk) → List ℕ → BTreeStats → Walk
stats_children walk [] s = some (true, s)
stats_children walk (c ∷ cs) s = elim (if not (is_positive c) then some (false, s) else walk c s) [
  | none ↦ none
  | some (false, s') ↦ some (false, s')
  | some (true, s') ↦ stats_children walk cs s'
]

unfoldable stats_rec : ℕ → Pager → ℕ → ℕ → BTreeStats → Walk
unfolding stats_children
stats_rec zero p n depth s = none
stats_rec (suc fuel) p n depth s = elim (node_load p n) [
  | none ↦ some (false, s)
  | some (leaf es next) ↦
      let s' = visit_node depth s in
      some
        (true, record s' { leaf_count = s.leaf_count + 1; entry_count = s.entry_count + length es })
  | some (internal cs ks) ↦
      stats_children (λ c s'. stats_rec fuel p c (depth + 1) s') cs (visit_node depth s)
]

abbrev no_stats : BTreeStats
no_stats = record { height = 0; node_count = 0; leaf_count = 0; entry_count = 0 }

-- `btree_stats`; a tree with no root page gives 0 and leaves `*out` alone.
unfoldable btree_stats : ℕ → BTree → BTreeStats → Walk
unfolding stats_rec
btree_stats fuel t out =
    if not (is_positive t.root_page)
    then some (false, out)
    else stats_rec fuel t.pager t.root_page 1 no_stats
