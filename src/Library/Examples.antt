-- ===== src/Library/Examples.antt =====
-- The theorem about app/incident_library.py at a concrete file.
use fcapsule_lab.Prelude.{refl, String, true, List, [], ◌∷◌, Dict, find, put}
use fcapsule_lab.Prelude.Exec.{Result, ok, err}
use fcapsule_lab.Json.{Json, Items, Fields, get}
use fcapsule_lab.Library.{Batch, load_cases, has_case_fields, starts_with, prefix_of, is_case_id}
use fcapsule_lab.Library.Loaded.{IsLibrary, load_cases-IsLibrary}

abbrev scalars : Fields
scalars =
    Fields.field "pool" (Json.text "main") (Fields.field "limit" (Json.boolean true) Fields.end)

abbrev case_of : String → Json
case_of id = Json.object (
    Fields.field "id" (Json.text id) (
      Fields.field "title" (Json.text "Pool drained") (
        Fields.field "category" (Json.text "Database") (
          Fields.field "service" (Json.text "orders") (
            Fields.field "mechanism" (Json.text "thread_pool") (
              Fields.field "summary" (Json.text "No worker is free") (
                Fields.field "precursor" (Json.text "A slow query") (
                  Fields.field "impact" (Json.text "Requests wait") (
                    Fields.field "parameters" (Json.object Fields.end)
                      (Fields.field "context" (Json.object scalars) Fields.end))))))))))

abbrev five_cases : Json
five_cases = Json.array (
    Items.cons (case_of "lib-01-a") (
      Items.cons (case_of "lib-01-b") (
        Items.cons (case_of "lib-01-c")
          (Items.cons (case_of "lib-01-d-2") (Items.cons (case_of "lib-01-e") Items.nil)))))

abbrev one_file : List Batch
one_file = record { digits = "01"; content = ok five_cases } ∷ []

abbrev cases_of : Result (Dict Fields) → Dict Fields
cases_of (ok l) = l
cases_of (err e) = []

unfoldable loaded : Dict Fields
unfolding load_cases find put get has_case_fields starts_with prefix_of is_case_id
loaded = cases_of (load_cases one_file)

load_cases-IsLibrary_example : IsLibrary 5 loaded
unfolding loaded
load_cases-IsLibrary_example = load_cases-IsLibrary one_file loaded refl
