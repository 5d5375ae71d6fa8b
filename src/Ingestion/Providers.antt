-- ===== src/Ingestion/Providers.antt =====
-- The provider rows: apps/ingestion/providers.py and `_get_or_create_provider`.
use ticketmirror.Base.{
  ℕ, ◌+◌, String, Option, none, some, List, [], ◌∷◌, ◌++◌, ◌==◌, str_eq, if◌then◌else◌, find?, map,
}
use ticketmirror.Base.Names.{lookup}
use ticketmirror.Data.{Db, Provider}
use ticketmirror.Ingestion.Environment.{Environment}

abbrev pub canonical_provider_labels : List (String × String)
canonical_provider_labels =
    ("bookeo", "Bookeo")
    ∷ ("getyourguide", "GetYourGuide")
    ∷ ("viator", "Viator")
    ∷ ("klook", "Klook")
    ∷ ("tiqets", "Tiqets")
    ∷ ("tripster", "Tripster")
    ∷ ("sputnik8", "Sputnik8")
    ∷ ("alle", "Alle")
    ∷ ("travel-experience", "Travel Experience")
    ∷ ("direct", "Sea Land / Direct")
    ∷ []

abbrev pub label_or : Option String → String → String
label_or none s = s
label_or (some label) s = label

unfoldable pub provider_display_name : Environment → String → String
provider_display_name env code =
    label_or (lookup code canonical_provider_labels) (env.title_case code)

abbrev pub rename : ℕ → String → Provider → Provider
rename id name p = if p.id == id then record p { name = name } else p

-- The row that was found, under its canonical name.
unfoldable pub canonical_provider : Db → Provider → String → Provider × Db
canonical_provider db p name =
    if str_eq p.name name
    then (p, db)
    else (record p { name = name }, record db { providers = map (rename p.id name) db.providers })

abbrev pub new_provider : ℕ → String → String → Provider
new_provider id code name = record { id = id; code = code; name = name; parser_key = code }

unfoldable pub add_provider : Db → Provider → Provider × Db
add_provider db p = (p, record db { providers = db.providers ++ p ∷ []; next_id = db.next_id + 1 })

unfoldable pub found_or_added : Db → String → String → Option Provider → Provider × Db
unfolding canonical_provider add_provider
found_or_added db code name none = add_provider db (new_provider db.next_id code name)
found_or_added db code name (some p) = canonical_provider db p name

unfoldable pub get_or_create_provider : Environment → Db → String → Provider × Db
unfolding provider_display_name found_or_added
get_or_create_provider env db code =
    found_or_added db code (provider_display_name env code)
      (find? (λ p. str_eq p.code code) db.providers)
