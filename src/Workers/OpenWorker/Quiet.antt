-- ===== src/Workers/OpenWorker/Quiet.antt =====
-- About what a session with OpenWorker lets happen: its requests are literal here, apart from the code's.
use company_command.Prelude.{◌≡◌, String, true, some, List, [], ◌∷◌, contains}
use company_command.Json.{Json, Fields, str, obj, get}
use company_command.Workers.Texts.{returned}
use company_command.Workers.OpenWorker.Frames.{Frame}

-- What a read-only session must not go on behind.
abbrev pub blocking : List String
blocking =
    "permission_required" ∷ "directory_requested" ∷ "plan_proposed" ∷ "question_requested" ∷ "error"
    ∷ []

-- An event of one of these types.
abbrev pub IsBlocking : Frame → Type 0
IsBlocking f =
    (event : Fields) × (kind : String) × (f ≡ returned (obj event))
    × (get "type" event ≡ some (str kind))
    × (contains kind blocking ≡ true)
