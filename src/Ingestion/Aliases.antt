-- ===== src/Ingestion/Aliases.antt =====
-- Which approved alias a provider's product has: `match_product_alias`.
pub mod Matching
use ticketmirror.Base.{
  ℕ, String, Bool, true, false, ◌&&◌, ◌||◌, Option, none, some, List, [], ◌∷◌, ◌==◌, str_eq,
  if◌then◌else◌, filter, find?, take, map, or_else,
}
use ticketmirror.Data.{ProviderAlias, Db}
use ticketmirror.Bookings.Reviews.{has_text}
use ticketmirror.Ingestion.Environment.{Environment}
use ticketmirror.Ingestion.Parsed.{ParsedBooking}
use ticketmirror.Ingestion.Text.{normalize_alias_text}

pub record ProviderAliasMatch : Type 0 where
  pub alias : Option ProviderAlias
  pub suggestions : List ℕ

-- `value or ""`
abbrev pub or_blank : Option String → String
or_blank none = ""
or_blank (some s) = s

unfoldable pub same_product : Environment → String → ProviderAlias → Bool
unfolding normalize_alias_text
same_product env product a =
    str_eq (normalize_alias_text env a.raw_product_name) (normalize_alias_text env product)

unfoldable pub same_option : Environment → String → ProviderAlias → Bool
unfolding normalize_alias_text
same_option env option a =
    str_eq (normalize_alias_text env a.raw_option_name) (normalize_alias_text env option)

unfoldable pub normalized_alias_match :
    Environment → List ProviderAlias → String → String → Bool → Option ProviderAlias
unfolding same_product same_option
normalized_alias_match env rows product option include_option =
    find?
      (λ a.
        same_product env product a && (if include_option then same_option env option a else true))
      rows

unfoldable pub normalized_alias_suggestions :
    Environment → List ProviderAlias → String → String → List ProviderAlias
unfolding same_product same_option
normalized_alias_suggestions env rows product option =
    filter
      (λ a.
        same_product env product a
        && (str_eq (normalize_alias_text env a.raw_option_name) "" || same_option env option a))
      rows

unfoldable pub aliases_of : Db → ℕ → List ProviderAlias
aliases_of db provider = filter (λ a. a.provider == provider) db.aliases

unfoldable pub approved_aliases : Db → ℕ → List ProviderAlias
unfolding aliases_of
approved_aliases db provider = filter (λ a. a.approved) (aliases_of db provider)

unfoldable pub has_codes : ParsedBooking → ProviderAlias → Bool
has_codes p a =
    str_eq a.provider_product_code (or_blank p.provider_product_code)
    && str_eq a.provider_option_code (or_blank p.provider_option_code)

-- By product and option code, where the email has a product code.
unfoldable pub match_by_code : List ProviderAlias → ParsedBooking → Option ProviderAlias
unfolding has_codes
match_by_code approved p =
    if has_text (or_blank p.provider_product_code) then find? (has_codes p) approved else none

-- By product and option name, then by product name alone where the email has an option.
unfoldable pub match_by_name :
    Environment → List ProviderAlias → ParsedBooking → Option ProviderAlias
unfolding normalized_alias_match
match_by_name env approved p =
    if has_text p.raw_product_name
    then or_else
        (normalized_alias_match env approved p.raw_product_name (or_blank p.raw_option_name) true)
        (if has_text (or_blank p.raw_option_name)
          then normalized_alias_match env approved p.raw_product_name "" false
          else none)
    else none

abbrev pub ids : List ProviderAlias → List ℕ
ids = map (λ a. a.id)

abbrev pub suggestions_or : List ProviderAlias → List ℕ → List ℕ
suggestions_or [] fuzzy = fuzzy
suggestions_or (a ∷ rows) fuzzy = ids (take 3 (a ∷ rows))

unfoldable pub suggest : Environment → List ProviderAlias → ParsedBooking → List ℕ
unfolding normalized_alias_suggestions
suggest env rows p =
    let fuzzy = env.fuzzy_suggestions rows p.raw_product_name (or_blank p.raw_option_name) in
    if has_text p.raw_product_name
    then suggestions_or
        (normalized_alias_suggestions env rows p.raw_product_name (or_blank p.raw_option_name))
        fuzzy
    else fuzzy

abbrev pub matched_or_suggested : Option ProviderAlias → List ℕ → ProviderAliasMatch
matched_or_suggested none suggestions = record { alias = none; suggestions = suggestions }
matched_or_suggested (some a) suggestions = record { alias = some a; suggestions = [] }

unfoldable pub match_product_alias : Environment → Db → ℕ → ParsedBooking → ProviderAliasMatch
unfolding approved_aliases match_by_code match_by_name suggest
match_product_alias env db provider p =
    let approved = approved_aliases db provider in
    matched_or_suggested (or_else (match_by_code approved p) (match_by_name env approved p))
      (suggest env (aliases_of db provider) p)
