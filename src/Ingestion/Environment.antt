-- ===== src/Ingestion/Environment.antt =====
-- What the services take from outside the program: the clock, the case mappings of Unicode, the
-- database's case-insensitive operators, the text search of difflib, and the translator.
use ticketmirror.Base.{ℕ, String, Bool, List}
use ticketmirror.Data.{ProviderAlias}

pub record Environment : Type 0 where
  -- timezone.now()
  pub now : ℕ
  -- str.lower()
  pub lower : String → String
  -- code.replace("-", " ").title()
  pub title_case : String → String
  -- SQL's `iexact` and `icontains`
  pub iexact : String → String → Bool
  pub icontains : String → String → Bool
  -- The ids that `_fuzzy_alias_suggestions` finds, for the text of a review only.
  pub fuzzy_suggestions : List ProviderAlias → String → String → List ℕ
