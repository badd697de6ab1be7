-- ===== src/Client/Tree/From.antt =====
-- Where directory.go's Walk starts.
use ftp.Base.{
  ℕ, false, Option, none, some, List, Bytes, ◌≡◌, ap, ◌∙◌, bytes_eq, text, ◌||◌, if◌then◌else◌,
}
use ftp.Driver.Path.{clean}
use ftp.Client.Listing.{Entry}
use ftp.Client.Wire.{Result, ok, err}
use ftp.Client.Tree.{
  WalkError, client, not_exist, top_entry, Walked, walk, walk_from, find_entry, path_base,
  parent_of,
}

module _ {T : Type 0} (list_at : Bytes → T → T × Result (List Entry))
    (visit : Bytes → Option Entry → Option WalkError → T → T × Option WalkError) where
  -- `Walk` from a path that a listing of its parent shows.
  pub walk_from-found :
      (n : ℕ) (root : Bytes) (es : List Entry) (e : Entry) (t : T)
      → bytes_eq (clean root) (text ".") ≡ false
      → bytes_eq (clean root) (text "/") ≡ false
      → (list_at (parent_of (clean root)) t).1 ≡ ok es
      → find_entry (path_base (clean root)) es ≡ some e
      → walk_from list_at visit n root t
        ≡ walk list_at visit n (clean root) e (list_at (parent_of (clean root)) t).0
  unfolding walk_from
  walk_from-found n root es e t dot slash l f =
      ap
        (λ b.
          if b || bytes_eq p (text "/")
          then walk list_at visit n p (top_entry p) t
          else from_parent (list_at (parent_of p) t).1)
        dot
      ∙ ap
          (λ b.
            if b
            then walk list_at visit n p (top_entry p) t
            else from_parent (list_at (parent_of p) t).1)
          slash
      ∙ ap from_parent l
      ∙ ap found_in f
    where
      p : Bytes
      p = clean root

      found_in : Option Entry → Walked T
      found_in o = elim o [
        | none ↦ some (visit root none (some not_exist) (list_at (parent_of p) t).0)
        | some e ↦ walk list_at visit n p e (list_at (parent_of p) t).0
      ]

      from_parent : Result (List Entry) → Walked T
      from_parent r = elim r [
        | err x ↦ some (visit root none (some (client x)) (list_at (parent_of p) t).0)
        | ok es ↦ found_in (find_entry (path_base p) es)
      ]
