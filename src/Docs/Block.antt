-- ===== src/Docs/Block.antt =====
-- What the sections of frontend/tenant-dashboard/app/docs/page.tsx are made of.
use modera_shield.Base.{String, ℕ, List}

pub data Block : Type 0 where
  paragraph : (text : String) → Block
  -- A paragraph with a link in it, and one with a piece of code in it.
  linked : (before : String) (href : String) (text : String) (after : String) → Block
  coded : (before : String) (code : String) (after : String) → Block
  button : (href : String) (text : String) → Block
  step : (number : ℕ) (title : String) → Block
  subtitle : (text : String) → Block
  value : (label : String) (text : String) → Block
  endpoint : (method : String) (path : String) → Block
  table : (columns : List String) (rows : List (List String)) → Block
  code : (title : String) (text : String) → Block

pub record Section : Type 0 where
  pub id : String
  pub title : String
  pub blocks : List Block
