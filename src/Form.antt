-- ===== src/Form.antt =====
-- What the forms of frontend/tenant-dashboard/app/ show: their inputs, with the message beside each,
-- and their button.
use modera_shield.Base.{String, Bool, false, Option, List}

pub record Input : Type 0 where
  pub label : String
  pub kind : String
  pub placeholder : String
  pub disabled : Bool
  pub required : Bool
  pub message : Option String

abbrev pub input : String → String → String → Option String → Input
input label kind placeholder message = record {
  label = label;
  kind = kind;
  placeholder = placeholder;
  disabled = false;
  required = false;
  message = message;
}

pub record Button : Type 0 where
  pub text : String
  pub disabled : Bool

pub record Link : Type 0 where
  pub question : String
  pub href : String
  pub text : String

pub record Form : Type 0 where
  pub title : String
  pub subtitle : String
  pub error : Option String
  pub inputs : List Input
  pub button : Button
  pub other : Link
