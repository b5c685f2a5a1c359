-- ===== src/Auth/Browser.antt =====
-- `Open` of pkg/browser/browser.go.
use claimward_vpn_client.Common.{
  str_eq, ◌+++◌, quote, String, List, [], ◌∷◌, Option, none, some, if◌then◌else◌,
}
use claimward_vpn_client.Errors.{Error, wrapped}

pub record Command : Type 0 where
  pub name : String
  pub args : List String

-- The opener of a system, `runtime.GOOS`.
abbrev pub opener : String → String → Command
opener os url =
    if str_eq os "darwin"
    then record { name = "/usr/bin/open"; args = url ∷ [] }
    else if str_eq os "windows"
    then record { name = "rundll32"; args = "url.dll,FileProtocolHandler" ∷ url ∷ [] }
    else record { name = "xdg-open"; args = url ∷ [] }

-- `Open`, where `start` starts a command.
unfoldable pub open_url : (Command → Option Error) → String → String → Option Error
open_url start os url = elim (start (opener os url)) [
  | none ↦ none
  | some e ↦ some (wrapped ("open " +++ quote url) e)
]
