-- ===== src/LanguageModel.antt =====
-- adapters/structured_generation.py: what is asked of the language model, and how it fails.
use personal_deadline_manage.Store.{Result, ok, err, generation_error}

-- `GenaiCoreBedrockAdapter.generate`, from what the conversation and the validation of its text
-- gave: any exception becomes LLMGenerationError.
unfoldable pub generate : {A : Type 0} → Result A → Result A
generate (ok output) = ok output
generate (err e) = err generation_error
