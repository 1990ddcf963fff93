-- ===== src/Docs/Webhooks.antt =====
-- The section of frontend/tenant-dashboard/app/docs/page.tsx on the webhooks.
use modera_shield.Base.{String, [], ◌∷◌}
use modera_shield.Docs.Block.{paragraph, subtitle, table, code, Section}

unfoldable pub completed_payload : String
completed_payload =
    "{\n  \"event\": \"moderation.completed\",\n  \"request_id\": \"82f7c229-3739-44b4-82ee-c1c5cb5a799a\",\n  \"status\": \"flagged\",\n  \"is_flagged\": true,\n  \"categories\": [\"toxic\"],\n  \"scores\": {\n    \"toxic\": 0.92\n  },\n  \"model\": \"moderashield-text-v1\"\n}"

unfoldable pub failed_payload : String
failed_payload =
    "{\n  \"event\": \"moderation.failed\",\n  \"request_id\": \"82f7c229-3739-44b4-82ee-c1c5cb5a799a\",\n  \"status\": \"failed\"\n}"

unfoldable pub signature_check : String
signature_check =
    "import hmac\nimport hashlib\n\ndef verify_signature(raw_payload: bytes, signature_header: str, secret: str) -> bool:\n    \"\"\"\n    raw_payload: Raw request body bytes (do not parse or format json before)\n    signature_header: The value of X-ModeraShield-Signature header\n    secret: The webhook secret generated in the dashboard\n    \"\"\"\n    computed = hmac.new(\n        secret.encode('utf-8'),\n        raw_payload,\n        hashlib.sha256\n    ).hexdigest()\n    \n    return hmac.compare_digest(computed, signature_header)\n"

unfoldable pub webhooks : Section
webhooks = record {
  id = "webhooks";
  title = "Webhooks";
  blocks =
      paragraph
        "Configure webhooks to receive real-time HTTP POST notifications on your server when a moderation request finishes processing (succeeds or fails)."
      ∷ subtitle "HTTP Headers sent to your server"
      ∷ table ("Header" ∷ "Description" ∷ []) (
          ("X-ModeraShield-Event-ID"
            ∷ "A unique UUID representing this event delivery task. Customers should use this ID to deduplicate deliveries and ensure idempotency."
            ∷ [])
          ∷ ("X-ModeraShield-Signature"
              ∷ "Hex-encoded HMAC-SHA256 signature generated using the webhook secret over the raw HTTP request body bytes."
              ∷ [])
          ∷ [])
      ∷ subtitle "Payload Formats"
      ∷ code "moderation.completed Event Payload" completed_payload
      ∷ code "moderation.failed Event Payload" failed_payload
      ∷ subtitle "Signature Verification Code (Python)"
      ∷ paragraph
          "To verify that a request was sent by ModeraShield and not tampered with, compute the HMAC-SHA256 signature using your webhook secret and verify it using constant-time comparison:"
      ∷ code "Python Flask / FastAPI signature check" signature_check
      ∷ [];
}
