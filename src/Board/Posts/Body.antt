-- ===== src/Board/Posts/Body.antt =====
-- The body of a post of src/board.rs, by its fields, and the lifetime of its reply inbox.
use aamio_rust.Base.{ℕ, ◌≡◌, refl, false, Option, none, some, List, map, Bytes, codes, same}
use aamio_rust.Base.Int.{pos}
use aamio_rust.Extern.Json.{Json}
use aamio_rust.Board.Find.{set_text}
use aamio_rust.Board.Find.Inserted.{get-insert-here, get-insert-there, get-set_text-there}
use aamio_rust.Board.Posts.{PostOptions, post_fields}
use aamio_rust.Client.Presence.{strings}

module _ ⦃j : Json⦄ where
  -- A text that is given stands under its name.
  abbrev pub Given : Option Bytes → Bytes → j.Map → Type 0
  Given none name m = Unit
  Given (some text) name m = j.get m name ≡ some (j.string text)

  -- The object of a post that names an inbox.
  abbrev pub PostBody :
      Bytes → Bytes → Bytes → List Bytes → Bytes → ℕ → PostOptions → j.Map → Type 0
  PostBody kind title text tags w ttl o m =
      (j.get m (codes "kind") ≡ some (j.string kind))
      × (j.get m (codes "title") ≡ some (j.string title))
      × (j.get m (codes "text") ≡ some (j.string text))
      × (j.get m (codes "tags") ≡ some (j.array (map j.string tags)))
      × (j.get m (codes "w") ≡ some (j.string w))
      × (j.get m (codes "ttl") ≡ some (j.number (pos ttl)))
      × Given o.lang (codes "lang") m
      × Given o.deadline (codes "deadline") m
      × Given o.scope (codes "scope") m

  get-set_text-here :
      (m : j.Map) (name : Bytes) (text : Option Bytes) → Given text name (set_text name text m)
  unfolding set_text
  get-set_text-here m name none = tt
  get-set_text-here m name (some text) = get-insert-here m name (j.string text)

  Given-there :
      (m : j.Map) (k : Bytes) (other : Option Bytes) (name : Bytes) (text : Option Bytes)
      → same k name ≡ false
      → Given text name m
      → Given text name (set_text k other m)
  Given-there m k other name none differ given = tt
  Given-there m k other name (some text) differ given =
      get-set_text-there m k other name (some (j.string text)) differ given

  -- What stands under a name that is no option is not touched by the options.
  kept_by_options :
      (m : j.Map) (o : PostOptions) (name : Bytes) (v : j.Value)
      → same (codes "lang") name ≡ false
      → same (codes "deadline") name ≡ false
      → same (codes "scope") name ≡ false
      → j.get m name ≡ some v
      → j.get
          (set_text
            (codes "scope")
            o.scope
            (set_text (codes "deadline") o.deadline (set_text (codes "lang") o.lang m)))
          name
        ≡ some v
  kept_by_options m o name v lang deadline scope held =
      get-set_text-there _ _ o.scope name _ scope (
        get-set_text-there _ _ o.deadline name _ deadline
          (get-set_text-there _ _ o.lang name _ lang held))

  pub post_fields-PostBody :
      (kind title text : Bytes) (tags : List Bytes) (w : Bytes) (ttl : ℕ) (o : PostOptions)
      → PostBody kind title text tags w ttl o (post_fields kind title text tags w ttl o)
  unfolding post_fields strings codes same
  post_fields-PostBody kind title text tags w ttl o = (
    kept_by_options _ o (codes "kind") _ refl refl refl (
        get-insert-there _ _ _ _ _ refl (
          get-insert-there _ _ _ _ _ refl (
            get-insert-there _ _ _ _ _ refl (
              get-insert-there _ _ _ _ _ refl
                (get-insert-there _ _ _ _ _ refl (get-insert-here _ _ _)))))),
    kept_by_options _ o (codes "title") _ refl refl refl (
        get-insert-there _ _ _ _ _ refl (
          get-insert-there _ _ _ _ _ refl (
            get-insert-there _ _ _ _ _ refl
              (get-insert-there _ _ _ _ _ refl (get-insert-here _ _ _))))),
    kept_by_options _ o (codes "text") _ refl refl refl (
        get-insert-there _ _ _ _ _ refl (
          get-insert-there _ _ _ _ _ refl
            (get-insert-there _ _ _ _ _ refl (get-insert-here _ _ _)))),
    kept_by_options _ o (codes "tags") _ refl refl refl
        (get-insert-there _ _ _ _ _ refl (get-insert-there _ _ _ _ _ refl (get-insert-here _ _ _))),
    kept_by_options _ o (codes "w") _ refl refl refl
        (get-insert-there _ _ _ _ _ refl (get-insert-here _ _ _)),
    kept_by_options _ o (codes "ttl") _ refl refl refl (get-insert-here _ _ _),
    Given-there _ _ o.scope _ o.lang refl
        (Given-there _ _ o.deadline _ o.lang refl (get-set_text-here _ _ o.lang)),
    Given-there _ _ o.scope _ o.deadline refl (get-set_text-here _ _ o.deadline),
    get-set_text-here _ _ o.scope,
  )
