-- ===== src/Sessions/Registry/Isolation.antt =====
-- What a call of a tool reaches in a session of several profiles, src/session/mod.rs.
use gaze_lens.Prelude.{
  Bool, true, false, Text-eq, if◌then◌else◌, Text, codes, List, Option, none, some, is_empty, ok,
  err, ok_or, ◌≡◌, refl, sym, ap, ap₂, ok_is, ◌∙◌, Gives, gives, fails, Gives-of, Gives-ok,
  Gives-bind, Gives-seq,
}
use gaze_lens.Sessions.Values.{
  LensError, profile, profile_unknown, source_error, operation_timeout, Checked, Value, null, bool,
  number, string, array, object, Fields, Library,
}
use gaze_lens.Sessions.Rows.{OutputCaps, SourceOutput, CleanOutput, redact_result}
use gaze_lens.Sessions.Registry.{
  SourceClass, tool_kind, ToolCall, ResultSummary, ColumnActionPolicy, or_no_actions, get_field,
  as_str, PipelineMode, ColumnActionMode, Session, pipeline_for, column_actions_for, fields_of,
  extract_profile, found_source, other_class, invoke_source, invoke_core_tool,
}
use gaze_lens.Sessions.Registry.Registrations.{
  Registration, after, latest_pipeline, latest_columns, latest_source, Holds, Holds-after,
}

module _ (Pipeline Source : Type 0) where
  fields_are : (args : Value) → Gives (λ fs. args ≡ object fs) (fields_of Pipeline Source args)
  fields_are (object fs) = gives refl
  fields_are null = fails
  fields_are (bool b) = fails
  fields_are (number n) = fails
  fields_are (string t) = fails
  fields_are (array es) = fails

  string_is : (o : Option Value) → Gives (λ t. o ≡ some (string t)) (ok_or profile (as_str o))
  string_is none = fails
  string_is (some (string t)) = gives refl
  string_is (some null) = fails
  string_is (some (bool b)) = fails
  string_is (some (number n)) = fails
  string_is (some (array es)) = fails
  string_is (some (object fs)) = fails

  some_is : {A : Type 0} (e : LensError) (o : Option A) → Gives (λ a. o ≡ some a) (ok_or e o)
  some_is e none = fails
  some_is e (some a) = gives refl

  abbrev Names : Value → Text × Fields → Type 0
  Names args (name, fs) = (args ≡ object fs) × (get_field (codes "profile") fs ≡ some (string name))

  extract-Names :
      (mode : PipelineMode Pipeline Source) (m : Text → Option Pipeline) (args : Value)
      → mode ≡ PipelineMode.multi_profile m
      → Gives (Names args) (extract_profile Pipeline Source mode args)
  unfolding extract_profile
  extract-Names mode m args e = rw e (
      Gives-bind (fields_are args) λ fs is.
        Gives-bind (string_is (get_field (codes "profile") fs)) λ name named.
          Gives-seq (if is_empty name then err profile else ok tt)
            λ filled. Gives-bind (some_is profile_unknown (m name)) λ p known. gives (is, named))

  pipeline_is :
      (mode : PipelineMode Pipeline Source) (m : Text → Option Pipeline) (name : Text)
      → mode ≡ PipelineMode.multi_profile m
      → Gives (λ p. m name ≡ some p) (pipeline_for Pipeline Source mode name)
  unfolding pipeline_for
  pipeline_is mode m name e = rw e (some_is profile_unknown (m name))

  actions_are :
      (mode : ColumnActionMode Pipeline Source) (m : Text → Option ColumnActionPolicy) (name : Text)
      → mode ≡ ColumnActionMode.multi_profile m
      → column_actions_for Pipeline Source mode name ≡ ok (or_no_actions (m name))
  unfolding column_actions_for
  actions_are mode m name e = rw e refl

  module _ (dispatch : Source → ToolCall → Checked SourceOutput) (library : Pipeline → Library)
      (summary : CleanOutput → ResultSummary) where
    -- A call for the profile that its arguments name: the source and the pipeline that were last
    -- registered for it, and its column actions.
    pub record IsOwn (caps : OutputCaps) (rs : List (Registration Pipeline Source))
        (call : ToolCall) (clean : CleanOutput) : Type 0 where
      pub name : Text
      pub fs : Fields
      pub arguments :
          (call.args ≡ object fs) × (get_field (codes "profile") fs ≡ some (string name))
      pub class : SourceClass
      pub of_class : tool_kind call.tool_name ≡ some class
      pub source : Source
      pub last_source : latest_source Pipeline Source rs class name ≡ some source
      pub raw : SourceOutput
      pub answers : dispatch source (record call { args = object fs }) ≡ ok raw
      pub pipeline : Pipeline
      pub last_pipeline : latest_pipeline Pipeline Source rs name ≡ some pipeline
      pub redacted :
          redact_result
            (library pipeline)
            caps
            (or_no_actions (latest_columns Pipeline Source rs name))
            raw
          ≡ ok clean

    found :
        (o other : Option Source)
        → Gives (λ src. o ≡ some src) (found_source Pipeline Source o other)
    found (some src) other = gives refl
    found none (some actual) = fails
    found none none = fails

    -- What invoke_source reaches where no source is registered for a tool by its name.
    abbrev Reaches : List (Registration Pipeline Source) → ToolCall → Text → SourceOutput → Type 0
    Reaches rs call name raw =
        (class : SourceClass) × (tool_kind call.tool_name ≡ some class)
        × ((src : Source) × (latest_source Pipeline Source rs class name ≡ some src)
            × (dispatch src call ≡ ok raw))

    invoke-Reaches :
        (caps : OutputCaps) (rs : List (Registration Pipeline Source)) (s : Session Pipeline Source)
        (call : ToolCall) (name : Text)
        → Holds Pipeline Source caps rs s
        → Gives
            (Reaches rs call name)
            (invoke_source Pipeline Source dispatch library summary s call name)
    unfolding invoke_source
    invoke-Reaches caps rs s call name h =
        let none_so : s.legacy_sources call.tool_name ≡ none =
          ap (λ (f : Text → Option Source). f call.tool_name) h.legacy in
        rw none_so (
          Gives-bind (some_is source_error (tool_kind call.tool_name)) λ class of_class.
            Gives-bind (found (s.sources class name) (s.sources (other_class class) name))
              λ src there. Gives-of (dispatch src call) λ raw answers. (
                class,
                of_class,
                (
                  src,
                  ap (λ (f : SourceClass → Text → Option Source). f class name) (sym h.sources)
                      ∙ there,
                  answers,
                ),
              ))

    timely :
        {A : Type 0} {P : A → Type 0} (late : Bool) (m : Checked A)
        → Gives P m
        → Gives P (if late then err operation_timeout else m)
    timely true m h = fails
    timely false m h = h

    own :
        (source_late redaction_late : Bool) (caps : OutputCaps)
        (rs : List (Registration Pipeline Source)) (s : Session Pipeline Source) (call : ToolCall)
        → Holds Pipeline Source caps rs s
        → Gives
            (λ (clean, t). IsOwn caps rs call clean)
            (invoke_core_tool Pipeline Source dispatch library summary source_late redaction_late s
              call)
    unfolding invoke_core_tool
    own source_late redaction_late caps rs s call h =
        Gives-bind
          (extract-Names s.pipeline_mode (latest_pipeline Pipeline Source rs) call.args h.pipelines)
          λ (name, fs) (args, named).
            Gives-bind
              (pipeline_is s.pipeline_mode (latest_pipeline Pipeline Source rs) name h.pipelines)
              λ pipeline last_pipeline.
                Gives-bind
                  (Gives-of (column_actions_for Pipeline Source s.column_action_mode name)
                    (λ actions is. is))
                  λ actions is.
                    let same : or_no_actions (latest_columns Pipeline Source rs name) ≡ actions =
                      ok_is _ _ (
                        sym (
                          actions_are s.column_action_mode (latest_columns Pipeline Source rs) name
                            h.policies)
                        ∙ is) in
                    Gives-bind
                      (timely source_late _
                        (invoke-Reaches caps rs s (record call { args = object fs }) name h))
                      λ raw (class, of_class, (src, last_source, answers)).
                        Gives-bind
                          (timely redaction_late _ (
                            Gives-of (redact_result (library pipeline) s.caps actions raw)
                              (λ clean made. made)))
                          λ clean made. gives (record {
                            name = name;
                            fs = fs;
                            arguments = (args, named);
                            class = class;
                            of_class = of_class;
                            source = src;
                            last_source = last_source;
                            raw = raw;
                            answers = answers;
                            pipeline = pipeline;
                            last_pipeline = last_pipeline;
                            redacted =
                                ap₂ (λ c a. redact_result (library pipeline) c a raw) (sym h.capped)
                                  same
                                ∙ made;
                          })

    -- In a session of several profiles, whatever was registered in whatever order, with no source
    -- registered for a tool itself: if a call of a tool is answered, then its arguments name a
    -- profile, and the answer is what the source last registered for that profile and the class of
    -- the tool answers to the call, redacted by the pipeline last registered for that profile under
    -- the column actions last registered for it, or under none.
    pub call_stays :
        (source_late redaction_late : Bool) (caps : OutputCaps)
        (rs : List (Registration Pipeline Source)) (call : ToolCall) (clean : CleanOutput)
        (t : Session Pipeline Source)
        → invoke_core_tool Pipeline Source dispatch library summary source_late redaction_late
            (after Pipeline Source caps rs)
            call
          ≡ ok (clean, t)
        → IsOwn caps rs call clean
    call_stays source_late redaction_late caps rs call clean t h =
        Gives-ok (clean, t)
          (own source_late redaction_late caps rs (after Pipeline Source caps rs) call
            (Holds-after Pipeline Source caps rs))
          h
