-- ===== src/Web/Client/Values.antt =====
-- apps/web/src/components: CopyableValue.tsx, EnvironmentBanner.tsx, CommitmentRail.tsx and ProofSection.tsx: what they show.
use clawback.Prelude.{
  ℕ, suc, ◌+◌, Text, Bool, true, false, Option, none, some, List, [], ◌∷◌, ◌++◌, lit, is_empty, leb,
  ltb, length, ◌&&◌, if◌then◌else◌,
}
use clawback.Json.Digits.{decimal}
use clawback.Shared.Types.{Environment, sandbox, live}
use clawback.Web.Client.Display.{shorten}

-- `value ? ... : ...` of a text that may be null or undefined.
abbrev pub truthy : Option Text → Option Text
truthy none = none
truthy (some t) = if is_empty t then none else some t

-- What the clipboard holds, and whether the check mark is shown.
pub record CopyState : Type 0 where
  pub clipboard : Text
  pub copied : Bool

-- `copy`, with whether the browser lets the text be written.
unfoldable pub copy : Bool → Text → CopyState → CopyState
copy allowed value s = if allowed then record { clipboard = value; copied = true } else s

-- The timer of `copy` after 1500 ms.
unfoldable pub copy_timer : CopyState → CopyState
copy_timer s = record s { copied = false }

pub record CopyableView : Type 0 where
  pub shown : Text
  pub title : Text
  pub href : Option Text
  pub button_label : Text
  pub has_check : Bool

abbrev label_or : Option Text → Text
label_or none = lit "value"
label_or (some label) = label

unfoldable pub copyable_value : Text → Option Text → Option Text → CopyState → CopyableView
unfolding shorten
copyable_value value href label s = record {
  shown = shorten value;
  title = value;
  href = truthy href;
  button_label = lit "Copy " ++ label_or label ++ lit " to clipboard";
  has_check = s.copied;
}

unfoldable pub environment_banner_text : Environment → Text
environment_banner_text live =
    lit "LIVE MERCHANT · A real counterparty integration handled this action."
environment_banner_text sandbox = lit "Simulated merchant response"

pub record RailNode : Type 0 where
  pub label : Text
  pub hash : Option Text
  pub href : Option Text

-- `toLowerCase` on the labels, which are ASCII.
unfoldable pub to_lower_case : Text → Text
to_lower_case [] = []
to_lower_case (c ∷ s) = (if leb b'A' c && leb c b'Z' then c + 32 else c) ∷ to_lower_case s

-- `String(n).padStart(2, "0")`
unfoldable pub pad_start2 : ℕ → Text
pad_start2 n = if ltb (length (decimal n)) 2 then b'0' ∷ decimal n else decimal n

pub record RailItem : Type 0 where
  pub number : Text
  pub label : Text
  pub value : Option CopyableView
  pub has_connector : Bool

abbrev not_copied : CopyState
not_copied = record { clipboard = []; copied = false }

abbrev rail_value : RailNode → Option Text → Option CopyableView
rail_value node none = none
rail_value node (some hash) = some (
    copyable_value hash node.href (some (to_lower_case node.label ++ lit " commitment")) not_copied)

abbrev rail_from : ℕ → ℕ → List RailNode → List RailItem
rail_from i count [] = []
rail_from i count (node ∷ rest) =
    record {
      number = pad_start2 (suc i);
      label = node.label;
      value = rail_value node (truthy node.hash);
      has_connector = ltb (suc i) count;
    }
    ∷ rail_from (suc i) count rest

-- The rail, before anything on it is copied.
unfoldable pub commitment_rail : List RailNode → List RailItem
unfolding copyable_value to_lower_case pad_start2
commitment_rail nodes = rail_from 0 (length nodes) nodes

pub record ProofItem : Type 0 where
  pub proven : Bool
  pub text : Text

-- An item with its mark, U+2713 or U+2715.
abbrev marks : List ProofItem → List (ℕ × Text)
marks [] = []
marks (item ∷ rest) = ((if item.proven then 10003 else 10005), item.text) ∷ marks rest

unfoldable pub proof_section : List ProofItem → List ProofItem → List (ℕ × Text) × List (ℕ × Text)
proof_section proven not_proven = (marks proven, marks not_proven)
