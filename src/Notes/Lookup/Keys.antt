-- ===== src/Notes/Lookup/Keys.antt =====
-- `_id` is the key of a collection: no two folders share one.
use graph_node_be.Common.{
  ◌≡◌, refl, sym, ◌∙◌, ap, inl, inr, Bool, true, false, not, ◌&&◌, String, List, [], ◌∷◌,
  Bool-cases, arith,
}
use graph_node_be.Common.Text.{◌==◌, eq_iff}
use graph_node_be.Notes.Collections.{update_one, update_many}
use graph_node_be.Notes.Docs.{FolderDoc, is_folder}
use graph_node_be.Notes.Members.{Memᴰ, any_of, any_of-intro}

unfoldable pub has_unique_ids : List FolderDoc → Bool
has_unique_ids [] = true
has_unique_ids (f ∷ fs) = not (any_of (λ g. g.id == f.id) fs) && has_unique_ids fs

no_other :
    (f : FolderDoc) (fs : List FolderDoc) (g : FolderDoc)
    → has_unique_ids (f ∷ fs) ≡ true
    → Memᴰ g fs
    → (g.id == f.id) ≡ false
unfolding has_unique_ids
no_other f fs g h m = elim (Bool-cases (g.id == f.id)) [
  | inl same ↦ ground (arith, any_of-intro (λ k. k.id == f.id) fs g m same)
  | inr other ↦ other
]

pub same_row :
    (fs : List FolderDoc) (f g : FolderDoc)
    → has_unique_ids fs ≡ true
    → Memᴰ f fs
    → Memᴰ g fs
    → (f.id == g.id) ≡ true
    → f ≡ g
unfolding has_unique_ids
same_row [] f g h mf mg e = elim mf [ ]
same_row (k ∷ fs) f g h (Memᴰ.head ef) (Memᴰ.head eg) e = ef ∙ sym eg
same_row (k ∷ fs) f g h (Memᴰ.head ef) (Memᴰ.tail mg) e =
    ground (arith, no_other k fs g h mg, ap (λ r. r.id) ef, eq_iff f.id g.id, eq_iff g.id k.id)
same_row (k ∷ fs) f g h (Memᴰ.tail mf) (Memᴰ.head eg) e =
    ground (arith, no_other k fs f h mf, ap (λ r. r.id) eg, eq_iff f.id g.id, eq_iff f.id k.id)
same_row (k ∷ fs) f g h (Memᴰ.tail mf) (Memᴰ.tail mg) e = same_row fs f g (ground arith) mf mg e

update_many-none :
    (c : FolderDoc → Bool) (h : FolderDoc → FolderDoc) (fs : List FolderDoc)
    → ((g : FolderDoc) → Memᴰ g fs → c g ≡ false)
    → update_many c h fs ≡ fs
unfolding update_many
update_many-none c h [] none_fits = refl
update_many-none c h (f ∷ fs) none_fits =
    rw (none_fits f (Memᴰ.head refl), update_many-none c h fs (λ g m. none_fits g (Memᴰ.tail m)))
      refl

-- An update by key is the same for one and for many.
pub update_one-many :
    (id u : String) (h : FolderDoc → FolderDoc) (fs : List FolderDoc)
    → has_unique_ids fs ≡ true
    → update_one (is_folder id u) h fs ≡ update_many (is_folder id u) h fs
unfolding update_one update_many has_unique_ids
update_one-many id u h [] unique = refl
update_one-many id u h (f ∷ fs) unique = elim (Bool-cases (is_folder id u f)) [
  | inl here ↦
      let rest = update_many-none (is_folder id u) h fs (λ g m.
        ground
          (arith, no_other f fs g unique m, eq_iff f.id id, eq_iff g.id f.id, eq_iff g.id id)) in
      rw (here, rest) refl
  | inr there ↦ rw (there, update_one-many id u h fs (ground arith)) refl
]

any_of-update_many :
    (x : String) (c : FolderDoc → Bool) (h : FolderDoc → FolderDoc) (fs : List FolderDoc)
    → ((f : FolderDoc) → (h f).id ≡ f.id)
    → any_of (λ g. g.id == x) (update_many c h fs) ≡ any_of (λ g. g.id == x) fs
unfolding any_of update_many
any_of-update_many x c h [] keeps = refl
any_of-update_many x c h (f ∷ fs) keeps = ground (arith, any_of-update_many x c h fs keeps, keeps f)

-- An update that leaves `_id` alone keeps the keys.
pub has_unique_ids-update_many :
    (c : FolderDoc → Bool) (h : FolderDoc → FolderDoc) (fs : List FolderDoc)
    → ((f : FolderDoc) → (h f).id ≡ f.id)
    → has_unique_ids (update_many c h fs) ≡ has_unique_ids fs
unfolding has_unique_ids update_many
has_unique_ids-update_many c h [] keeps = refl
has_unique_ids-update_many c h (f ∷ fs) keeps = elim (Bool-cases (c f)) [
  | inl updated ↦
      rw
        (
          updated,
          keeps f,
          any_of-update_many f.id c h fs keeps,
          has_unique_ids-update_many c h fs keeps,
        )
        refl
  | inr kept ↦
      rw (kept, any_of-update_many f.id c h fs keeps, has_unique_ids-update_many c h fs keeps) refl
]
