-- ===== src/Detect/Types.antt =====
-- internal/detect/types.go
use aiclibridge.Prelude.{Text, List, Bool}

pub record ModelInfo : Type 0 where
  pub name : Text
  pub display_name : Text

pub record ProviderInfo : Type 0 where
  pub name : Text
  pub models : List ModelInfo

pub record CliInfo : Type 0 where
  pub name : Text
  pub version : Text
  pub available : Bool
  pub path : Text
  pub providers : List ProviderInfo

-- adapter.Model, of internal/adapter/openclaw.go
pub record Model : Type 0 where
  pub id : Text
  pub label : Text
  pub provider : Text
  pub default : Bool
