-- ===== src/Graph/Context/Stack.antt =====
-- The stack of directories of a context (Go/internal/graph/context.go).
use share_hound.Collector.Rights.{ShareRights}
use share_hound.Graph.Context.{
  Context, PathEntry, split_last, push_path, pop_path, set_directory_rights,
}
use share_hound.Graph.Element.{Node}
use share_hound.Prelude.{◌≡◌, refl, List, [], ◌∷◌, ◌++◌, some}

pub split_last-snoc :
    (es : List PathEntry) (e : PathEntry) → split_last (es ++ (e ∷ [])) ≡ some (es, e)
unfolding split_last
split_last-snoc [] e = refl
split_last-snoc (x ∷ []) e = refl
split_last-snoc (x ∷ y ∷ es) e = rw (split_last-snoc (y ∷ es) e) refl

-- The context without the last entry of its path.
pub pop_path_last :
    (es : List PathEntry) (e : PathEntry) (c : Context)
    → c.path ≡ es ++ (e ∷ [])
    → (pop_path c).0 ≡ record c { path = es }
unfolding pop_path
pop_path_last es e c h = rw (pop_path, h, split_last-snoc es e) refl

pop_pushed :
    (n : Node) (rights : ShareRights) (c : Context) → pop_path (push_path n rights c) ≡ (c, some n)
unfolding pop_path
pop_pushed n rights c =
    rw (pop_path, split_last-snoc c.path (record { node = n; rights = rights })) refl

set_pushed :
    (n : Node) (rights later : ShareRights) (c : Context)
    → set_directory_rights later (push_path n rights c) ≡ push_path n later c
unfolding set_directory_rights
set_pushed n rights later c =
    rw (set_directory_rights, split_last-snoc c.path (record { node = n; rights = rights })) refl

-- `PopPath` after `PushPath` returns the directory that was pushed, also when its rights were set in
-- between, and gives the context of before; `SetDirectoryRights` has the effect of having pushed the
-- directory with these rights.
pub pop_path-push_path :
    (n : Node) (rights later : ShareRights) (c : Context)
    → (pop_path (push_path n rights c) ≡ (c, some n))
      × (set_directory_rights later (push_path n rights c) ≡ push_path n later c)
      × (pop_path (set_directory_rights later (push_path n rights c)) ≡ (c, some n))
pop_path-push_path n rights later c = (
  pop_pushed n rights c,
  set_pushed n rights later c,
  rw (set_pushed n rights later c) (pop_pushed n later c),
)
