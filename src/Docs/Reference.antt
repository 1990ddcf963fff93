-- ===== src/Docs/Reference.antt =====
-- The sections of frontend/tenant-dashboard/app/docs/page.tsx on the requests and their errors.
use Prim.Native.String.{◌++◌}
use modera_shield.Base.{String, List, [], ◌∷◌, map}
use modera_shield.Docs.Block.{paragraph, subtitle, endpoint, table, code, Section}

-- A row of the table of the request's fields.
pub record Field : Type 0 where
  pub name : String
  pub kind : String
  pub required : String
  pub description : String

abbrev pub fields : List Field
fields =
    record {
      name = "content_type";
      kind = "string";
      required = "Yes";
      description = "Must be set to \"text\"";
    }
    ∷ record {
      name = "content";
      kind = "string";
      required = "Yes";
      description = "The raw text payload to scan and moderate.";
    }
    ∷ []

abbrev field_row : Field → List String
field_row f = f.name ∷ f.kind ∷ f.required ∷ f.description ∷ []

-- "cURL HTTP Example"
unfoldable pub curl_example : String → String
curl_example user_api_key =
    "curl -X POST http://localhost:8000/api/v1/moderate/ \\\n  -H \"X-API-Key: "
    ++ (user_api_key
        ++ "\" \\\n  -H \"Content-Type: application/json\" \\\n  -d '{\n    \"content_type\": \"text\",\n    \"content\": \"Text to moderate\"\n  }'")

unfoldable pub text_mod : String → Section
text_mod user_api_key = record {
  id = "text-mod";
  title = "Text Moderation API";
  blocks =
      paragraph
        "ModeraShield's text moderation is asynchronous under the hood, but our Python SDK handles polling automatically for synchronous wrappers."
      ∷ subtitle "HTTP Endpoint Definition"
      ∷ endpoint "POST" "/api/v1/moderate/"
      ∷ subtitle "Request Body Parameters"
      ∷ table ("Field" ∷ "Type" ∷ "Required" ∷ "Description" ∷ []) (map field_row fields)
      ∷ code "cURL HTTP Example" (curl_example user_api_key)
      ∷ [];
}

-- "Python SDK Example"
unfoldable pub sdk_example : String → String
sdk_example user_api_key =
    "from moderashield import Moderashield\n\n# Initialize client\nclient = Moderashield(\n    api_key=\""
    ++ (user_api_key
        ++ "\"\n)\n\n# Submit request\nresult = client.moderate_text(\n    \"Text to moderate\"\n)\n\nif result.is_flagged:\n    print(f\"Content Blocked! Triggered flags: {result.categories}\")\n    print(f\"Toxic category score: {result.scores.get('toxic')}\")\nelse:\n    print(\"Content safe!\")")

unfoldable pub python_sdk : String → Section
python_sdk user_api_key = record {
  id = "python-sdk";
  title = "Python SDK Integration";
  blocks =
      paragraph
        "Use our official Python SDK for clean, object-oriented syntax. It polls the async backend pipeline under the hood and executes with low-latency connection pools."
      ∷ code "Python SDK Example" (sdk_example user_api_key)
      ∷ [];
}

-- A row of the table of the errors.
pub record ErrorRow : Type 0 where
  pub http_code : String
  pub name : String
  pub description : String

abbrev pub error_rows : List ErrorRow
error_rows =
    record {
      http_code = "400 Bad Request";
      name = "MalformedRequest";
      description = "Input query parameter or body payload syntax is invalid.";
    }
    ∷ record {
      http_code = "401 Unauthorized";
      name = "AuthenticationError";
      description = "The provided `X-API-Key` is missing, invalid, or revoked.";
    }
    ∷ record {
      http_code = "404 Not Found";
      name = "NotFoundError";
      description = "No moderation request matching the supplied ID exists.";
    }
    ∷ record {
      http_code = "422 Unprocessable";
      name = "ValidationError";
      description = "Input validation failed (e.g. content_type not supported).";
    }
    ∷ record {
      http_code = "500 Server Error";
      name = "ServerError";
      description = "ModeraShield encountered a database or backend processing worker failure.";
    }
    ∷ []

abbrev error_row : ErrorRow → List String
error_row e = e.http_code ∷ e.name ∷ e.description ∷ []

unfoldable pub errors : Section
errors = record {
  id = "errors";
  title = "Error Handling";
  blocks =
      paragraph "Our API returns standard JSON error objects with detailed statuses:"
      ∷ table ("HTTP Code" ∷ "Name" ∷ "Description" ∷ []) (map error_row error_rows)
      ∷ [];
}
