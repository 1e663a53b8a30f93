-- ===== src/Orchestration/Samples.antt =====
-- services/tool/ToolOrchestrator.ts: the sample records of executeCacheTool.
use app_intent_system_orches.Base.{true, false, List, [], ◌∷◌, string_eq}
use app_intent_system_orches.Js.{Value, str, bool, object, array}

abbrev pub sample_entities : List Value
sample_entities =
    object (
      ("id", str "sample-001")
      ∷ ("entityType", str "Account")
      ∷ (
        "data",
        object (
            ("Id", str "001xx000003DGSW")
            ∷ ("Name", str "Acme Corporation")
            ∷ ("Website", str "https://acme.com")
            ∷ ("Phone", str "+1-555-0100")
            ∷ ("Industry", str "Technology")
            ∷ ("BillingCity", str "San Francisco")
            ∷ ("BillingState", str "CA")
            ∷ []),
      )
      ∷ [])
    ∷ object (
        ("id", str "sample-002")
        ∷ ("entityType", str "Account")
        ∷ (
          "data",
          object (
              ("Id", str "001xx000003DGSX")
              ∷ ("Name", str "TechVentures Inc")
              ∷ ("Website", str "https://techventures.io")
              ∷ ("Phone", str "+1-555-0101")
              ∷ ("Industry", str "Software")
              ∷ ("BillingCity", str "New York")
              ∷ ("BillingState", str "NY")
              ∷ []),
        )
        ∷ [])
    ∷ object (
        ("id", str "sample-003")
        ∷ ("entityType", str "Account")
        ∷ (
          "data",
          object (
              ("Id", str "001xx000003DGSY")
              ∷ ("Name", str "Global Dynamics")
              ∷ ("Website", str "https://globaldynamics.com")
              ∷ ("Phone", str "+1-555-0102")
              ∷ ("Industry", str "Manufacturing")
              ∷ ("BillingCity", str "Seattle")
              ∷ ("BillingState", str "WA")
              ∷ []),
        )
        ∷ [])
    ∷ object (
        ("id", str "sample-004")
        ∷ ("entityType", str "Account")
        ∷ (
          "data",
          object (
              ("Id", str "001xx000003DGSZ")
              ∷ ("Name", str "Innovation Labs")
              ∷ ("Website", str "https://innovationlabs.co")
              ∷ ("Phone", str "+1-555-0103")
              ∷ ("Industry", str "Research")
              ∷ ("BillingCity", str "Boston")
              ∷ ("BillingState", str "MA")
              ∷ []),
        )
        ∷ [])
    ∷ object (
        ("id", str "sample-005")
        ∷ ("entityType", str "Account")
        ∷ (
          "data",
          object (
              ("Id", str "001xx000003DGSA")
              ∷ ("Name", str "Future Enterprises")
              ∷ ("Website", str "https://futureenterprises.com")
              ∷ ("Phone", str "+1-555-0104")
              ∷ ("Industry", str "Consulting")
              ∷ ("BillingCity", str "Austin")
              ∷ ("BillingState", str "TX")
              ∷ []),
        )
        ∷ [])
    ∷ []

abbrev pub sample_emails : List Value
sample_emails =
    object (
      ("id", str "email-001")
      ∷ ("entityType", str "GmailThread")
      ∷ (
        "data",
        object (
            ("id", str "1829a1b2c3d4e5f")
            ∷ ("threadId", str "1829a1b2c3d4e5f")
            ∷ ("subject", str "Q1 Planning Meeting")
            ∷ ("from", str "john.smith@company.com")
            ∷ ("to", str "user@gmail.com")
            ∷ ("date", str "2026-01-16T10:30:00Z")
            ∷ (
              "snippet",
              str "Hi team, I would like to schedule our Q1 planning meeting for next week...",
            )
            ∷ ("labels", array (str "INBOX" ∷ str "IMPORTANT" ∷ []))
            ∷ ("isRead", bool true)
            ∷ []),
      )
      ∷ [])
    ∷ object (
        ("id", str "email-002")
        ∷ ("entityType", str "GmailThread")
        ∷ (
          "data",
          object (
              ("id", str "1829a1b2c3d4e6g")
              ∷ ("threadId", str "1829a1b2c3d4e6g")
              ∷ ("subject", str "Project Update - Sprint 12")
              ∷ ("from", str "sarah.jones@company.com")
              ∷ ("to", str "user@gmail.com")
              ∷ ("date", str "2026-01-16T09:15:00Z")
              ∷ (
                "snippet",
                str "Here is the update for Sprint 12. We have completed 15 story points...",
              )
              ∷ ("labels", array (str "INBOX" ∷ []))
              ∷ ("isRead", bool true)
              ∷ []),
        )
        ∷ [])
    ∷ object (
        ("id", str "email-003")
        ∷ ("entityType", str "GmailThread")
        ∷ (
          "data",
          object (
              ("id", str "1829a1b2c3d4e7h")
              ∷ ("threadId", str "1829a1b2c3d4e7h")
              ∷ ("subject", str "Review: Architecture Design Document")
              ∷ ("from", str "mike.chen@company.com")
              ∷ ("to", str "user@gmail.com")
              ∷ ("date", str "2026-01-16T08:45:00Z")
              ∷ (
                "snippet",
                str "Could you please review the architecture design document I shared...",
              )
              ∷ ("labels", array (str "INBOX" ∷ str "IMPORTANT" ∷ []))
              ∷ ("isRead", bool false)
              ∷ []),
        )
        ∷ [])
    ∷ object (
        ("id", str "email-004")
        ∷ ("entityType", str "GmailThread")
        ∷ (
          "data",
          object (
              ("id", str "1829a1b2c3d4e8i")
              ∷ ("threadId", str "1829a1b2c3d4e8i")
              ∷ ("subject", str "Weekly Team Sync Notes")
              ∷ ("from", str "emily.brown@company.com")
              ∷ ("to", str "user@gmail.com")
              ∷ ("date", str "2026-01-15T16:00:00Z")
              ∷ ("snippet", str "Attached are the notes from this week's team sync meeting...")
              ∷ ("labels", array (str "INBOX" ∷ str "SENT" ∷ []))
              ∷ ("isRead", bool true)
              ∷ []),
        )
        ∷ [])
    ∷ object (
        ("id", str "email-005")
        ∷ ("entityType", str "GmailThread")
        ∷ (
          "data",
          object (
              ("id", str "1829a1b2c3d4e9j")
              ∷ ("threadId", str "1829a1b2c3d4e9j")
              ∷ ("subject", str "Action Items: Client Presentation")
              ∷ ("from", str "david.wilson@company.com")
              ∷ ("to", str "user@gmail.com")
              ∷ ("date", str "2026-01-15T14:30:00Z")
              ∷ (
                "snippet",
                str
                    "Based on our discussion, here are the action items from the client presentation...",
              )
              ∷ ("labels", array (str "INBOX" ∷ str "IMPORTANT" ∷ []))
              ∷ ("isRead", bool false)
              ∷ []),
        )
        ∷ [])
    ∷ []
