-- ===== src/Orchestration/Demo.antt =====
-- services/tool/ToolOrchestrator.ts: getDemoFallbackData and getDemoEmailFallbackData.
use app_intent_system_orches.Base.{
  String, true, false, List, [], ◌∷◌, ◌==◌, string_eq, if◌then◌else◌,
}
use app_intent_system_orches.Js.{Value, str, bool, object, array}

abbrev pub demo_accounts : List Value
demo_accounts =
    object (
      ("id", str "001_demo_001")
      ∷ ("entityType", str "Account")
      ∷ (
        "data",
        object (
            ("Id", str "001Demo001")
            ∷ ("Name", str "Tech Corp Inc.")
            ∷ ("Website", str "https://techcorp.demo")
            ∷ ("Phone", str "+1-555-0100")
            ∷ ("Industry", str "Technology")
            ∷ ("BillingCity", str "San Francisco")
            ∷ ("BillingState", str "CA")
            ∷ []),
      )
      ∷ [])
    ∷ object (
        ("id", str "001_demo_002")
        ∷ ("entityType", str "Account")
        ∷ (
          "data",
          object (
              ("Id", str "001Demo002")
              ∷ ("Name", str "Innovation Labs")
              ∷ ("Website", str "https://innovationlabs.demo")
              ∷ ("Phone", str "+1-555-0101")
              ∷ ("Industry", str "Technology")
              ∷ ("BillingCity", str "Austin")
              ∷ ("BillingState", str "TX")
              ∷ []),
        )
        ∷ [])
    ∷ object (
        ("id", str "001_demo_003")
        ∷ ("entityType", str "Account")
        ∷ (
          "data",
          object (
              ("Id", str "001Demo003")
              ∷ ("Name", str "Tech Solutions Ltd.")
              ∷ ("Website", str "https://techsolutions.demo")
              ∷ ("Phone", str "+1-555-0102")
              ∷ ("Industry", str "Consulting")
              ∷ ("BillingCity", str "New York")
              ∷ ("BillingState", str "NY")
              ∷ []),
        )
        ∷ [])
    ∷ object (
        ("id", str "001_demo_004")
        ∷ ("entityType", str "Account")
        ∷ (
          "data",
          object (
              ("Id", str "001Demo004")
              ∷ ("Name", str "Digital Dynamics")
              ∷ ("Website", str "https://digitaldynamics.demo")
              ∷ ("Phone", str "+1-555-0103")
              ∷ ("Industry", str "Technology")
              ∷ ("BillingCity", str "Seattle")
              ∷ ("BillingState", str "WA")
              ∷ []),
        )
        ∷ [])
    ∷ object (
        ("id", str "001_demo_005")
        ∷ ("entityType", str "Account")
        ∷ (
          "data",
          object (
              ("Id", str "001Demo005")
              ∷ ("Name", str "Cloud Tech Partners")
              ∷ ("Website", str "https://cloudtech.demo")
              ∷ ("Phone", str "+1-555-0104")
              ∷ ("Industry", str "Technology")
              ∷ ("BillingCity", str "Denver")
              ∷ ("BillingState", str "CO")
              ∷ []),
        )
        ∷ [])
    ∷ []

abbrev pub demo_leads : List Value
demo_leads =
    object (
      ("id", str "00Q_demo_001")
      ∷ ("entityType", str "Lead")
      ∷ (
        "data",
        object (
            ("Id", str "00QDemo001")
            ∷ ("Name", str "John Smith - Tech Corp")
            ∷ ("Company", str "Tech Corp Inc.")
            ∷ ("Email", str "john.smith@techcorp.demo")
            ∷ ("Phone", str "+1-555-0200")
            ∷ ("Status", str "Open - Not Contacted")
            ∷ []),
      )
      ∷ [])
    ∷ object (
        ("id", str "00Q_demo_002")
        ∷ ("entityType", str "Lead")
        ∷ (
          "data",
          object (
              ("Id", str "00QDemo002")
              ∷ ("Name", str "Sarah Johnson - Innovation Labs")
              ∷ ("Company", str "Innovation Labs")
              ∷ ("Email", str "sarah.j@innovationlabs.demo")
              ∷ ("Phone", str "+1-555-0201")
              ∷ ("Status", str "Working - Contacted")
              ∷ []),
        )
        ∷ [])
    ∷ object (
        ("id", str "00Q_demo_003")
        ∷ ("entityType", str "Lead")
        ∷ (
          "data",
          object (
              ("Id", str "00QDemo003")
              ∷ ("Name", str "Mike Wilson - Tech Solutions")
              ∷ ("Company", str "Tech Solutions Ltd.")
              ∷ ("Email", str "mike.w@techsolutions.demo")
              ∷ ("Phone", str "+1-555-0202")
              ∷ ("Status", str "Open - Not Contacted")
              ∷ []),
        )
        ∷ [])
    ∷ object (
        ("id", str "00Q_demo_004")
        ∷ ("entityType", str "Lead")
        ∷ (
          "data",
          object (
              ("Id", str "00QDemo004")
              ∷ ("Name", str "Emily Brown - Digital Dynamics")
              ∷ ("Company", str "Digital Dynamics")
              ∷ ("Email", str "emily.b@digitaldynamics.demo")
              ∷ ("Phone", str "+1-555-0203")
              ∷ ("Status", str "Qualified")
              ∷ []),
        )
        ∷ [])
    ∷ object (
        ("id", str "00Q_demo_005")
        ∷ ("entityType", str "Lead")
        ∷ (
          "data",
          object (
              ("Id", str "00QDemo005")
              ∷ ("Name", str "David Lee - Cloud Tech")
              ∷ ("Company", str "Cloud Tech Partners")
              ∷ ("Email", str "david.l@cloudtech.demo")
              ∷ ("Phone", str "+1-555-0204")
              ∷ ("Status", str "Open - Not Contacted")
              ∷ []),
        )
        ∷ [])
    ∷ []

abbrev pub demo_emails : List Value
demo_emails =
    object (
      ("id", str "email_demo_001")
      ∷ ("threadId", str "thread_demo_001")
      ∷ ("entityType", str "GmailThread")
      ∷ (
        "data",
        object (
            ("id", str "emailDemo001")
            ∷ ("threadId", str "threadDemo001")
            ∷ ("subject", str "Q1 Planning Meeting - Action Items")
            ∷ ("from", str "sarah.johnson@company.com")
            ∷ ("to", str "user@example.com")
            ∷ ("date", str "2026-02-25T10:30:00Z")
            ∷ ("snippet", str "Hi team, here are the action items from our Q1 planning meeting...")
            ∷ ("labels", array (str "INBOX" ∷ str "IMPORTANT" ∷ []))
            ∷ ("isRead", bool false)
            ∷ []),
      )
      ∷ [])
    ∷ object (
        ("id", str "email_demo_002")
        ∷ ("threadId", str "thread_demo_002")
        ∷ ("entityType", str "GmailThread")
        ∷ (
          "data",
          object (
              ("id", str "emailDemo002")
              ∷ ("threadId", str "threadDemo002")
              ∷ ("subject", str "Project Update: Feature X")
              ∷ ("from", str "mike.wilson@company.com")
              ∷ ("to", str "user@example.com")
              ∷ ("date", str "2026-02-25T09:15:00Z")
              ∷ (
                "snippet",
                str "Just wanted to give you a quick update on Feature X development...",
              )
              ∷ ("labels", array (str "INBOX" ∷ []))
              ∷ ("isRead", bool true)
              ∷ []),
        )
        ∷ [])
    ∷ object (
        ("id", str "email_demo_003")
        ∷ ("threadId", str "thread_demo_003")
        ∷ ("entityType", str "GmailThread")
        ∷ (
          "data",
          object (
              ("id", str "emailDemo003")
              ∷ ("threadId", str "threadDemo003")
              ∷ ("subject", str "RE: Budget Approval Needed")
              ∷ ("from", str "finance@company.com")
              ∷ ("to", str "user@example.com")
              ∷ ("date", str "2026-02-24T16:45:00Z")
              ∷ ("snippet", str "Please review and approve the attached budget proposal...")
              ∷ ("labels", array (str "INBOX" ∷ str "IMPORTANT" ∷ []))
              ∷ ("isRead", bool false)
              ∷ []),
        )
        ∷ [])
    ∷ object (
        ("id", str "email_demo_004")
        ∷ ("threadId", str "thread_demo_004")
        ∷ ("entityType", str "GmailThread")
        ∷ (
          "data",
          object (
              ("id", str "emailDemo004")
              ∷ ("threadId", str "threadDemo004")
              ∷ ("subject", str "Weekly Team Sync Notes")
              ∷ ("from", str "emily.chen@company.com")
              ∷ ("to", str "user@example.com")
              ∷ ("date", str "2026-02-24T14:00:00Z")
              ∷ ("snippet", str "Here are the notes from our weekly team sync meeting...")
              ∷ ("labels", array (str "INBOX" ∷ []))
              ∷ ("isRead", bool true)
              ∷ []),
        )
        ∷ [])
    ∷ object (
        ("id", str "email_demo_005")
        ∷ ("threadId", str "thread_demo_005")
        ∷ ("entityType", str "GmailThread")
        ∷ (
          "data",
          object (
              ("id", str "emailDemo005")
              ∷ ("threadId", str "threadDemo005")
              ∷ ("subject", str "Client Feedback - Project Alpha")
              ∷ ("from", str "client@external.com")
              ∷ ("to", str "user@example.com")
              ∷ ("date", str "2026-02-24T11:30:00Z")
              ∷ (
                "snippet",
                str "Thank you for the presentation. Here are our thoughts on Project Alpha...",
              )
              ∷ ("labels", array (str "INBOX" ∷ str "IMPORTANT" ∷ []))
              ∷ ("isRead", bool true)
              ∷ []),
        )
        ∷ [])
    ∷ []

-- getDemoFallbackData
abbrev pub demo_fallback_data : String → List Value
demo_fallback_data entity_type = if entity_type == "Lead" then demo_leads else demo_accounts
