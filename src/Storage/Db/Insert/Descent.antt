-- ===== src/Storage/Db/Insert/Descent.antt =====
-- In a well-formed tree `descend_path` of storage/src/db.c ends at the leaf that `descend_to_leaf`
-- ends at.
use codo.Prelude.{
  ℕ, zero, suc, ◌<◌, ◌≡◌, ◌≢◌, refl, ◌∙◌, ap, sym, subst, Option, some, List, [], ◌∷◌, arith,
}
use codo.Storage.Memory.{done}
use codo.Storage.Page.{Page, PageType, find_key_position}
use codo.Storage.Page.Search.{IsFirstNotBelow, find_key_position-IsFirstNotBelow}
use codo.Storage.Db.{at_leaf, child_toward, descend_from}
use codo.Storage.Db.Tree.{Leaf, Tree}
use codo.Storage.Db.Descend.{
  child_of, route, result_of, child_toward-child_of, leaf_step, node_step,
}
use codo.Storage.Db.Grow.{descend_path_from}
use codo.Storage.Db.Insert.{last_id}

Tree-id_set :
    (pages : ℕ → Option Page) (h id : ℕ) (leaves : List Leaf) → Tree pages h id leaves → id ≢ 0
Tree-id_set pages zero id leaves (l, single, at, is_leaf) = λ e. is_leaf.id_set (at ∙ e)
Tree-id_set pages (suc h) id leaves t = t.id_set

-- A page is at one height of the trees it is in.
Tree-height :
    (pages : ℕ → Option Page) (h k id : ℕ) (ls ms : List Leaf)
    → Tree pages h id ls
    → Tree pages k id ms
    → h ≡ k
Tree-height pages zero zero id ls ms t u = refl
Tree-height pages zero (suc k) id ls ms (l, single, at, is_leaf) u =
    let there = ap pages (sym at) ∙ is_leaf.there in
    let kind = is_leaf.kind in
    let there' = u.there in
    let kind' = u.kind in absurd (ground (arith, there, there', kind, kind'))
Tree-height pages (suc h) zero id ls ms t (l, single, at, is_leaf) =
    let there = ap pages (sym at) ∙ is_leaf.there in
    let kind = is_leaf.kind in
    let there' = t.there in
    let kind' = t.kind in absurd (ground (arith, there, there', kind, kind'))
Tree-height pages (suc h) (suc k) id ls ms t u =
    let same : t.page ≡ u.page = cc (t.there, u.there) in
    ap suc (
      Tree-height pages h k t.page.next_page_id t.last u.last t.rightmost
        (subst (λ p. Tree pages k p.next_page_id u.last) (sym same) u.rightmost))

-- The path to the leaf that a descent ends at.
pub record PathTo (levels : ℕ) (pages : ℕ → Option Page) (key : List ℕ) (id : ℕ) : Type 0 where
  pub ids : List ℕ
  pub leaf_id : ℕ
  pub page : Page
  pub path : descend_path_from levels pages key id ≡ done (some ids)
  pub ends : descend_from levels pages key id ≡ done (at_leaf leaf_id page)
  pub last : last_id ids ≡ some leaf_id

last_id_with :
    (id leaf_id : ℕ) (ids : List ℕ) → last_id ids ≡ some leaf_id → last_id (id ∷ ids) ≡ some leaf_id
unfolding last_id
last_id_with id leaf_id [] h = absurd (ground arith)
last_id_with id leaf_id (next ∷ ids) h = h

module _ (pages : ℕ → Option Page) (key : List ℕ) where
  path_leaf :
      (levels id : ℕ) (page : Page)
      → pages id ≡ some page
      → page.page_type ≡ PageType.leaf
      → descend_path_from (suc levels) pages key id ≡ done (some (id ∷ []))
  unfolding descend_path_from
  path_leaf levels id page there kind = ground arith

  path_node :
      (levels id child : ℕ) (page : Page) (ids : List ℕ)
      → pages id ≡ some page
      → page.page_type ≡ PageType.internal
      → child_toward page key ≡ done child
      → child ≢ 0
      → child ≢ id
      → descend_path_from levels pages key child ≡ done (some ids)
      → descend_path_from (suc levels) pages key id ≡ done (some (id ∷ ids))
  unfolding descend_path_from
  path_node levels id child page ids there kind toward set other deeper = ground arith

  pub descend_path_from-PathTo :
      (h levels id : ℕ) (leaves : List Leaf)
      → h < levels
      → Tree pages h id leaves
      → PathTo levels pages key id
  unfolding last_id
  descend_path_from-PathTo zero zero id leaves enough t = absurd (omega arith)
  descend_path_from-PathTo (suc h) zero id leaves enough t = absurd (omega arith)
  descend_path_from-PathTo zero (suc levels) id leaves enough (l, single, at, is_leaf) =
      let there = ap pages (sym at) ∙ is_leaf.there in
      record {
        ids = id ∷ [];
        leaf_id = id;
        page = l.page;
        path = path_leaf levels id l.page there is_leaf.kind;
        ends = leaf_step pages key levels id l.page there is_leaf.kind;
        last = refl;
      }
  descend_path_from-PathTo (suc h) (suc levels) id leaves enough t =
      let (r, found, first) =
        result_of (find_key_position t.page key) (IsFirstNotBelow t.seps key)
          (find_key_position-IsFirstNotBelow t.page t.seps t.holds t.sorted key) in
      let child = child_of t.seps r t.page.next_page_id in
      let o =
        route (Tree pages h) key t.page.next_page_id t.seps t.parts t.last r t.children t.rightmost
          t.routed first in
      let toward = child_toward-child_of t.page t.seps key r t.holds found first.inside in
      let deeper = descend_path_from-PathTo h levels child o.inside (omega arith) o.subtree in
      let other : child ≢ id = λ e. omega (
        arith,
        Tree-height pages h (suc h) child o.inside leaves o.subtree
            (subst (λ i. Tree pages (suc h) i leaves) (sym e) t),
      ) in
      record {
        ids = id ∷ deeper.ids;
        leaf_id = deeper.leaf_id;
        page = deeper.page;
        path =
            path_node levels id child t.page deeper.ids t.there t.kind toward
              (Tree-id_set pages h child o.inside o.subtree) other deeper.path;
        ends = node_step pages key levels id child t.page t.there t.kind toward ∙ deeper.ends;
        last = last_id_with id deeper.leaf_id deeper.ids deeper.last;
      }
