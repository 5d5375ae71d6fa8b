-- ===== src/Ingestion/Aliases/Matching.antt =====
-- What a matched alias is, and that no approved alias is passed over.
use ticketmirror.Base.{ℕ, ◌≡◌, ◌⊎◌, true, none, some, List, In}
use ticketmirror.Data.{ProviderAlias, Db}
use ticketmirror.Bookings.Reviews.{has_text}
use ticketmirror.Ingestion.Environment.{Environment}
use ticketmirror.Ingestion.Parsed.{ParsedBooking}
use ticketmirror.Ingestion.Text.{normalize_alias_text}
use ticketmirror.Ingestion.Aliases.{ProviderAliasMatch, or_blank}

-- An approved alias of the provider.
pub record IsApproved (db : Db) (provider : ℕ) (a : ProviderAlias) : Type 0 where
  pub stored : In a db.aliases
  pub of_provider : a.provider ≡ provider
  pub approved : a.approved ≡ true

-- The alias has the email's product and option code.
abbrev pub HasCodes : ParsedBooking → ProviderAlias → Type 0
HasCodes p a =
    (has_text (or_blank p.provider_product_code) ≡ true)
    × (a.provider_product_code ≡ or_blank p.provider_product_code)
    × (a.provider_option_code ≡ or_blank p.provider_option_code)

-- The names are equal up to white space and case.
abbrev pub HasProduct : Environment → ParsedBooking → ProviderAlias → Type 0
HasProduct env p a =
    (has_text p.raw_product_name ≡ true)
    × (normalize_alias_text env a.raw_product_name ≡ normalize_alias_text env p.raw_product_name)

abbrev pub HasOption : Environment → ParsedBooking → ProviderAlias → Type 0
HasOption env p a =
    normalize_alias_text env a.raw_option_name
    ≡ normalize_alias_text env (or_blank p.raw_option_name)

module _ (env : Environment) (approved : List ProviderAlias) (p : ParsedBooking) where
  -- The alias has both names, or the email names an option that no alias has with the product.
  abbrev HasNames : ProviderAlias → Type 0
  HasNames a =
      HasProduct env p a
      × (HasOption env p a
          ⊎ (has_text (or_blank p.raw_option_name) ≡ true)
            × ((b : ProviderAlias) → In b approved → HasProduct env p b → ¬ HasOption env p b))

-- The alias is the one that the email names: by product and option, or by the product alone where the
-- email has an option that no approved alias has with it.
pub record IsNamed (env : Environment) (db : Db) (provider : ℕ) (p : ParsedBooking)
    (a : ProviderAlias) : Type 0 where
  pub product : HasProduct env p a
  pub option :
      HasOption env p a
      ⊎ (has_text (or_blank p.raw_option_name) ≡ true)
        × ((b : ProviderAlias)
            → IsApproved db provider b
            → HasProduct env p b
            → ¬ HasOption env p b)

-- What `match_product_alias` says of an email of the provider.
pub record IsMatch (env : Environment) (db : Db) (provider : ℕ) (p : ParsedBooking)
    (r : ProviderAliasMatch) : Type 0 where
  pub found :
      (a : ProviderAlias)
      → r.alias ≡ some a
      → IsApproved db provider a × (HasCodes p a ⊎ IsNamed env db provider p a)
  pub missed :
      r.alias ≡ none
      → (a : ProviderAlias) → IsApproved db provider a
      → ¬ HasCodes p a × (HasProduct env p a → ¬ HasOption env p a)
  pub codes_first :
      (a b : ProviderAlias)
      → r.alias ≡ some a
      → IsApproved db provider b
      → HasCodes p b
      → HasCodes p a
